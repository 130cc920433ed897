-- ===== src/Expr/FoldingSteps.antt =====
-- klee/lib/Expr/ExprBuilder.cpp: what the calls from ConstantFoldingBuilder to the builder that it
-- is in need, one call or one within another: fewer nodes in all, or no more and fewer on the left.
use cgs.Prelude.{
  ap, ℕ, suc, ◌+◌, ◌^◌, ◌≤◌, ◌<◌, ◌≡◌, ◌∙◌, ◌⊎◌, inl, inr, refl, sym, subst, true, false, ◌>>=◌,
  arith, true_ne_false, true_ne_false,
}
use cgs.Expr.Node.{
  is_division, add, Expr, ArithmeticKind, constant, not_optimized, read, select, concat, extract,
  zext, sext, negation, arithmetic, comparison, sub, size, is_constant,
}
use cgs.Expr.ApInt.{ApInt, ApIntLaws, Fits}
use cgs.Expr.Value.{eval, IsTyped}
use cgs.Expr.Builder.{ExprBuilder}
use cgs.Expr.Sound.{
  Implements, Implements-refl, Implements-trans, arithmetic-Implements, constant-Implements, Builds,
  Builds-trans, Builds->>=,
}
use cgs.Expr.SpecializedLaws.{size-positive}
use cgs.Expr.SpecializedLaws.{size-positive}
use cgs.Expr.Words.{plus, zero_plus, negate-minus}
use cgs.Expr.Regrouping.{sum_value, value-Fits, HasWidth, zero-HasWidth}

pub size-no_constant : (e : Expr) → is_constant e ≡ false → 2 ≤ size e
size-no_constant (constant w v) h = absurd (true_ne_false h)
size-no_constant (not_optimized e) h = omega (arith, size-positive e)
size-no_constant (read root head index) h = omega arith
size-no_constant (select c t f) h = omega (arith, size-positive c)
size-no_constant (concat l r) h = omega (arith, size-positive l)
size-no_constant (extract e offset w) h = omega (arith, size-positive e)
size-no_constant (zext e w) h = omega (arith, size-positive e)
size-no_constant (sext e w) h = omega (arith, size-positive e)
size-no_constant (negation e) h = omega (arith, size-positive e)
size-no_constant (arithmetic k l r) h = omega (arith, size-positive l)
size-no_constant (comparison k l r) h = omega (arith, size-positive l)

abbrev pub Below : ℕ → ℕ → Expr → Expr → Type 0
Below total left l r = (size l + size r < total) ⊎ ((size l + size r ≤ total) × (size l < left))

module _ (ops : ApInt) (laws : ApIntLaws ops) where
  pub op-HasWidth :
      (k : ArithmeticKind) (w : ℕ) (l r : Expr)
      → HasWidth w l
      → HasWidth w r
      → HasWidth w (arithmetic k l r)
  op-HasWidth k w l r (hl, wl) (hr, wr) = ((hl, hr, wl ∙ sym wr), wl)

  pub fold-Implements :
      (k : ArithmeticKind) (w c v d : ℕ)
      → is_division k ≡ false
      → IsTyped (arithmetic k (constant w c) (constant v d))
      → Implements ops
          (constant w (ops.arithmetic_op k w c d))
          (arithmetic k (constant w c) (constant v d))
  fold-Implements k w c v d plain h =
      constant-Implements ops laws (arithmetic k (constant w c) (constant v d)) _ h
        (λ contents. rw plain refl)

  pub neg-Implements :
      (w v d : ℕ)
      → v ≡ w
      → Fits v d
      → Implements ops (constant v (ops.neg v d)) (arithmetic sub (constant w 0) (constant v d))
  neg-Implements w v d p h =
      subst
        (λ (u : ℕ).
          Implements ops (constant v (ops.neg v d)) (arithmetic sub (constant u 0) (constant v d)))
        p
        (constant-Implements ops laws (arithmetic sub (constant v 0) (constant v d)) _
          ((zero-HasWidth ops laws v).0, h, refl)
          (λ contents. laws.neg_lem v d ∙ negate-minus (2 ^ v) d ∙ sym (laws.sub_lem v 0 d)))

  -- 0 + X is X.
  pub zero_add-Implements :
      (w c : ℕ) (r : Expr)
      → c ≡ 0
      → IsTyped (arithmetic add (constant w c) r)
      → Implements ops r (arithmetic add (constant w c) r)
  zero_add-Implements w c r p (hc, hr, e) = (
    hr,
    sym e,
    λ contents fit.
        let x = eval ops contents r in
        let f : Fits w x = value-Fits ops laws contents w r fit (hr, sym e) in
        sym (
          sum_value ops laws contents w (constant w c) r refl
          ∙ ap (λ (u : ℕ). plus (2 ^ w) u x) p
          ∙ zero_plus (2 ^ w) x f),
  )

  -- To rewrite the left operand first
  pub left_rule :
      (w : ℕ) (k : ArithmeticKind) (l' l r e : Expr)
      → Implements ops l' l
      → HasWidth w l
      → HasWidth w r
      → Implements ops (arithmetic k l r) e
      → Implements ops (arithmetic k l' r) e
  left_rule w k l' l r e h hl hr rule =
      Implements-trans ops (arithmetic k l' r) (arithmetic k l r) e
        (arithmetic-Implements ops k l' l r r h (Implements-refl ops r hr.0)
          (op-HasWidth k w l r hl hr).0)
        rule

  module _ (builder : ExprBuilder) (total left : ℕ)
      (rec : (k : ArithmeticKind) (l r : Expr)
        → is_division k ≡ false
        → IsTyped (arithmetic k l r)
        → Below total left l r
        → Builds ops true (builder.build_arithmetic k l r) (arithmetic k l r)) where
    pub direct-Builds :
        (k : ArithmeticKind)
        → is_division k ≡ false
        → (l r e : Expr) → Implements ops (arithmetic k l r) e
        → size l + size r < total
        → suc (size l + size r) ≤ size e
        → Builds ops true (builder.build_arithmetic k l r) e
    direct-Builds k plain l r e h below hs =
        Builds-trans ops true _ (arithmetic k l r) e (rec k l r plain h.0 (inl below)) h hs

    pub nested-Builds :
        (j k : ArithmeticKind)
        → is_division j ≡ false
        → is_division k ≡ false
        → (x y z e : Expr) → Implements ops (arithmetic k x (arithmetic j y z)) e
        → size y + size z < total
        → size x < left
        → size x + suc (size y + size z) ≤ total
        → suc (size x + suc (size y + size z)) ≤ size e
        → Builds ops true (builder.build_arithmetic j y z >>= λ s. builder.build_arithmetic k x s) e
    nested-Builds j k inner_plain outer_plain x y z e h inner outer ht hs =
        Builds->>= ops true true _ (λ s. builder.build_arithmetic k x s) (arithmetic j y z) e
          (rec j y z inner_plain h.0.1 (inl inner))
          (λ s hi hsize.
            let impl : Implements ops (arithmetic k x s) (arithmetic k x (arithmetic j y z)) =
              arithmetic-Implements ops k x x s (arithmetic j y z) (Implements-refl ops x h.0.0) hi
                h.0 in
            Builds-trans ops true _ (arithmetic k x s) e
              (rec k x s outer_plain impl.0 (inr (omega arith, outer)))
              (Implements-trans ops (arithmetic k x s) (arithmetic k x (arithmetic j y z)) e impl h)
              (omega arith))
