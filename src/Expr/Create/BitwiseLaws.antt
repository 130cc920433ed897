-- ===== src/Expr/Create/BitwiseLaws.antt =====
-- klee/lib/Expr/Expr.cpp: that create of And, Or and Not builds what it is called for.
use cgs.Prelude.{ℕ, ◌-◌, ◌^◌, ◌==◌, ◌≡◌, refl, sym, false, Option, some, ◌>>◌, assert, ==_iff}
use cgs.Expr.Node.{
  plain-IsSafe, is_division, Constness, a_constant, no_constant, constness, Expr, ArithmeticKind,
  constant, arithmetic, and, or, width,
}
use cgs.Expr.ApInt.{ApInt, ApIntLaws, Fits}
use cgs.Expr.Constant.{is_zero, is_all_ones}
use cgs.Expr.Value.{arithmetic_value, IsTyped}
use cgs.Expr.Sound.{
  constant_arithmetic_lem, Implements, Implements-refl, turned-Implements, Builds, Builds-trans_any,
  if-Builds,
}
use cgs.Expr.Regrouping.{value-Fits}
use cgs.Expr.Create.Bitwise.{
  binary_by, and_partial, and_partial_r, and_create, or_partial, or_partial_r, or_create,
}

module _ (ops : ApInt) (laws : ApIntLaws ops) where
  pub any-Builds : (e' e : Expr) → Implements ops e' e → Builds ops false (some e') e
  any-Builds e' e h = (e', refl, h, tt)

  pub assert-Builds :
      (w v : ℕ) (m : Option Expr) (e : Expr)
      → w ≡ v
      → Builds ops false m e
      → Builds ops false (assert (w == v) >> m) e
  assert-Builds w v m e h k = rw ((==_iff w v).1 h) k

  -- Where the constant on the right leaves the left operand, or is the result
  kept-Builds :
      (k : ArithmeticKind) (l : Expr) (w c : ℕ)
      → ((x : ℕ) → Fits w x → x ≡ arithmetic_value ops k w x c)
      → IsTyped (arithmetic k l (constant w c))
      → Builds ops false (some l) (arithmetic k l (constant w c))
  kept-Builds k l w c same (hl, hc, e) =
      any-Builds l (arithmetic k l (constant w c))
        (hl, refl, λ contents fit. cc (e, same _ (value-Fits ops laws contents w l fit (hl, e))))

  absorbed-Builds :
      (k : ArithmeticKind) (l : Expr) (w c : ℕ)
      → ((x : ℕ) → Fits w x → c ≡ arithmetic_value ops k w x c)
      → IsTyped (arithmetic k l (constant w c))
      → Builds ops false (some (constant w c)) (arithmetic k l (constant w c))
  absorbed-Builds k l w c same (hl, hc, e) =
      any-Builds (constant w c) (arithmetic k l (constant w c))
        (hc, sym e, λ contents fit. cc (e, same _ (value-Fits ops laws contents w l fit (hl, e))))

  pub same-any : (e : Expr) → IsTyped e → Builds ops false (some e) e
  same-any e h = any-Builds e e (Implements-refl ops e h)

  and_partial_lem :
      (l : Expr) (w c : ℕ)
      → IsTyped (arithmetic and l (constant w c))
      → Builds ops false (and_partial ops l w c) (arithmetic and l (constant w c))
  and_partial_lem l w c h =
      let t = arithmetic and l (constant w c) in
      if-Builds ops false (is_all_ones w c) _ _ t
        (λ p.
          kept-Builds and l w c
            (λ x f. cc ((==_iff c (2 ^ w - 1)).0 p, laws.and_ones w x f, laws.and_comm w x c)) h)
        (λ p.
          if-Builds ops false (is_zero c) _ _ t
            (λ q.
              absorbed-Builds and l w c
                (λ x f. cc ((==_iff c 0).0 q, laws.and_zero w x f, laws.and_comm w x c)) h)
            (λ q. same-any t h))

  or_partial_lem :
      (l : Expr) (w c : ℕ)
      → IsTyped (arithmetic or l (constant w c))
      → Builds ops false (or_partial ops l w c) (arithmetic or l (constant w c))
  or_partial_lem l w c h =
      let t = arithmetic or l (constant w c) in
      if-Builds ops false (is_all_ones w c) _ _ t
        (λ p.
          absorbed-Builds or l w c
            (λ x f. cc ((==_iff c (2 ^ w - 1)).0 p, laws.or_ones w x f, laws.or_comm w x c)) h)
        (λ p.
          if-Builds ops false (is_zero c) _ _ t
            (λ q.
              kept-Builds or l w c
                (λ x f. cc ((==_iff c 0).0 q, laws.or_zero w x f, laws.or_comm w x c)) h)
            (λ q. same-any t h))

  -- The macro BCREATE_R, over what it calls
  pub binary_by_lem :
      (k : ArithmeticKind) (partial_r : ℕ → ℕ → Expr → Option Expr)
      (partial : Expr → ℕ → ℕ → Option Expr) (other : Expr → Expr → Option Expr)
      → ((w c : ℕ) (r : Expr)
          → IsTyped (arithmetic k (constant w c) r)
          → Builds ops false (partial_r w c r) (arithmetic k (constant w c) r))
      → ((l : Expr) (w c : ℕ)
          → IsTyped (arithmetic k l (constant w c))
          → Builds ops false (partial l w c) (arithmetic k l (constant w c)))
      → is_division k ≡ false
      → {l r : Expr}
      → (IsTyped (arithmetic k l r) → Builds ops false (other l r) (arithmetic k l r))
      → (cl : Constness l) (cr : Constness r) → IsTyped (arithmetic k l r)
      → Builds ops false (binary_by ops k partial_r partial other cl cr) (arithmetic k l r)
  binary_by_lem k f g o hf hg plain ho (a_constant w c) (a_constant v d) h =
      constant_arithmetic_lem ops laws false k w c v d h
        (plain-IsSafe k (constant w c) (constant v d) plain)
  binary_by_lem k f g o hf hg plain ho (a_constant w c) (no_constant r z) h = hf w c r h
  binary_by_lem k f g o hf hg plain ho (no_constant l z) (a_constant w c) h = hg l w c h
  binary_by_lem k f g o hf hg plain ho (no_constant l z) (no_constant r z') h = ho h

  pub and_partial_r_lem :
      (w c : ℕ) (r : Expr)
      → IsTyped (arithmetic and (constant w c) r)
      → Builds ops false (and_partial_r ops w c r) (arithmetic and (constant w c) r)
  and_partial_r_lem w c r h =
      let s = turned-Implements ops and (constant w c) r laws.and_comm h in
      Builds-trans_any ops false _ (arithmetic and r (constant w c))
        (arithmetic and (constant w c) r) (and_partial_lem r w c s.0) s

  or_partial_r_lem :
      (w c : ℕ) (r : Expr)
      → IsTyped (arithmetic or (constant w c) r)
      → Builds ops false (or_partial_r ops w c r) (arithmetic or (constant w c) r)
  or_partial_r_lem w c r h =
      let s = turned-Implements ops or (constant w c) r laws.or_comm h in
      Builds-trans_any ops false _ (arithmetic or r (constant w c)) (arithmetic or (constant w c) r)
        (or_partial_lem r w c s.0) s

  pub and_create_lem :
      (l r : Expr)
      → IsTyped (arithmetic and l r)
      → Builds ops false (and_create ops l r) (arithmetic and l r)
  and_create_lem l r h = assert-Builds (width l) (width r) _ (arithmetic and l r) h.2 (
      binary_by_lem and (and_partial_r ops) (and_partial ops) (λ x y. some (arithmetic and x y))
        and_partial_r_lem and_partial_lem refl (same-any (arithmetic and l r)) (constness l)
        (constness r) h)

  pub or_create_lem :
      (l r : Expr)
      → IsTyped (arithmetic or l r)
      → Builds ops false (or_create ops l r) (arithmetic or l r)
  or_create_lem l r h = assert-Builds (width l) (width r) _ (arithmetic or l r) h.2 (
      binary_by_lem or (or_partial_r ops) (or_partial ops) (λ x y. some (arithmetic or x y))
        or_partial_r_lem or_partial_lem refl (same-any (arithmetic or l r)) (constness l)
        (constness r) h)
