-- ===== src/Expr/Create/Cuts.antt =====
-- klee/lib/Expr/Expr.cpp: what create of Extract and Concat gives within create.
use cgs.Prelude.{
  ℕ, ◌+◌, ◌≡◌, ◌≤◌, ◌<◌, ◌&&◌, ltb, leb, refl, Bool, true, false, Option, some, ◌>>=◌, arith,
  if◌then◌else◌,
}
use cgs.Expr.Node.{
  Expr, constant, not_optimized, read, select, concat, extract, zext, sext, negation, arithmetic,
  comparison, size,
}
use cgs.Expr.ApInt.{ApInt, ApIntLaws}
use cgs.Expr.Value.{IsTyped}
use cgs.Expr.Sound.{Implements, Implements-refl, Implements-trans}

-- The nodes below an Extract, which create of Concat may look at again
abbrev pub inner_size : Expr → ℕ
inner_size (extract e off w) = size e
inner_size e = 0

pub inner_size-le : (e : Expr) → inner_size e ≤ size e
inner_size-le (constant w v) = omega arith
inner_size-le (not_optimized e) = omega arith
inner_size-le (read root head index) = omega arith
inner_size-le (select c t f) = omega arith
inner_size-le (concat l r) = omega arith
inner_size-le (extract e off w) = omega arith
inner_size-le (zext e w) = omega arith
inner_size-le (sext e w) = omega arith
inner_size-le (negation e) = omega arith
inner_size-le (arithmetic k l r) = omega arith
inner_size-le (comparison k l r) = omega arith

pub leb-false : (a b : ℕ) → leb a b ≡ false → b < a
leb-false a b h = ground arith

pub valid_part : (off w v : ℕ) → 0 < w → off + w ≤ v → (ltb 0 w && leb (off + w) v) ≡ true
valid_part off w v h k = ground arith

module _ (ops : ApInt) (laws : ApIntLaws ops) where
  abbrev pub Cuts : Option Expr → Expr → ℕ → Type 0
  Cuts m t s = (e' : Expr) × (m ≡ some e') × Implements ops e' t × (inner_size e' ≤ s)

  pub Cuts-trans :
      (m : Option Expr) (d t : Expr) (s u : ℕ)
      → Cuts m d s
      → Implements ops d t
      → s ≤ u
      → Cuts m t u
  Cuts-trans m d t s u (e, p, impl, k) rule h =
      (e, p, Implements-trans ops e d t impl rule, omega (arith, k, h))

  pub if-Cuts :
      (c : Bool) (m n : Option Expr) (t : Expr) (s : ℕ)
      → (c ≡ true → Cuts m t s)
      → (c ≡ false → Cuts n t s)
      → Cuts (if c then m else n) t s
  if-Cuts true m n t s h k = h refl
  if-Cuts false m n t s h k = k refl

  pub Cuts->>= :
      (m : Option Expr) (f : Expr → Option Expr) (d t : Expr) (s u : ℕ)
      → Cuts m d s
      → ((e : Expr) → Implements ops e d → inner_size e ≤ s → Cuts (f e) t u)
      → Cuts (m >>= f) t u
  Cuts->>= m f d t s u (e, p, impl, k) h = rw p (h e impl k)

  kept-Cuts : (t : Expr) → IsTyped t → Cuts (some t) t (size t)
  kept-Cuts t h = (t, refl, Implements-refl ops t h, inner_size-le t)

  pub joined-Cuts :
      (l r : Expr) (s : ℕ) → IsTyped (concat l r) → Cuts (some (concat l r)) (concat l r) s
  joined-Cuts l r s h = (concat l r, refl, Implements-refl ops (concat l r) h, omega arith)
