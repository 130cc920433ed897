-- ===== src/Expr/OperatorLaws.antt =====
-- klee/lib/Expr/ExprBuilder.cpp: that ConstantFoldingBuilder::Mul, And, Or, Xor and Eq build what they
-- are called for.
use cgs.Prelude.{
  false, ℕ, ◌-◌, ◌%◌, ◌^◌, ◌≡◌, ◌∙◌, refl, sym, ap, true, Option, some, arith, ==_iff,
}
use native.Mathlib.Nat.{mod-eq_of_lt, zero-mod}
use cgs.Expr.Node.{
  is_division, plain-IsSafe, Expr, Constness, a_constant, no_constant, ArithmeticKind, constant,
  arithmetic, mul, and, or, xor,
}
use cgs.Expr.ApInt.{ApInt, ApIntLaws, Fits}
use cgs.Expr.Constant.{is_zero, is_one, is_all_ones}
use cgs.Expr.Value.{arithmetic_value, IsTyped}
use cgs.Expr.Builder.{ExprBuilder}
use cgs.Expr.Sound.{turned-Implements, Builds, Builds-trans, IsSound, if-Builds, some-Builds}
use cgs.Expr.Regrouping.{value-Fits}
use cgs.Expr.Folding.{mul_constant, and_constant, or_constant, xor_constant, commuting_by}

module _ (ops : ApInt) (laws : ApIntLaws ops) (base : ExprBuilder) (sound : IsSound ops true base)
    (builder : ExprBuilder) where
  -- Where the operation gives its left operand, or its right one, at each value of the right one
  left-Builds :
      (k : ArithmeticKind) (w c : ℕ) (r : Expr)
      → ((x : ℕ) → Fits w x → c ≡ arithmetic_value ops k w c x)
      → IsTyped (arithmetic k (constant w c) r)
      → Builds ops true (some (constant w c)) (arithmetic k (constant w c) r)
  left-Builds k w c r same (hc, hr, e) =
      some-Builds ops true (constant w c) (arithmetic k (constant w c) r)
        (hc, refl, λ contents fit. same _ (value-Fits ops laws contents w r fit (hr, sym e)))
        (omega arith)

  right-Builds :
      (k : ArithmeticKind) (w c : ℕ) (r : Expr)
      → ((x : ℕ) → Fits w x → x ≡ arithmetic_value ops k w c x)
      → IsTyped (arithmetic k (constant w c) r)
      → Builds ops true (some r) (arithmetic k (constant w c) r)
  right-Builds k w c r same (hc, hr, e) =
      some-Builds ops true r (arithmetic k (constant w c) r)
        (hr, sym e, λ contents fit. same _ (value-Fits ops laws contents w r fit (hr, sym e)))
        (omega arith)

  mul_zero : (w x : ℕ) → ops.arithmetic_op mul w 0 x ≡ 0
  mul_zero w x = laws.mul_lem w 0 x ∙ ap (λ (y : ℕ). y % 2 ^ w) (omega arith) ∙ zero-mod (2 ^ w)

  mul_one : (w x : ℕ) → Fits w x → ops.arithmetic_op mul w 1 x ≡ x
  mul_one w x f = laws.mul_lem w 1 x ∙ ap (λ (y : ℕ). y % 2 ^ w) (omega arith) ∙ mod-eq_of_lt f

  pub mul_constant_lem :
      (w c : ℕ) (r : Expr)
      → IsTyped (arithmetic mul (constant w c) r)
      → Builds ops true (mul_constant ops builder base w c r) (arithmetic mul (constant w c) r)
  mul_constant_lem w c r h =
      let e = arithmetic mul (constant w c) r in
      if-Builds ops true (is_zero c) _ _ e
        (λ p. left-Builds mul w c r (λ x f. cc ((==_iff c 0).0 p, mul_zero w x)) h)
        (λ p.
          if-Builds ops true (is_one c) _ _ e
            (λ q. right-Builds mul w c r (λ x f. cc ((==_iff c 1).0 q, mul_one w x f)) h)
            (λ q. sound.arithmetic_lem mul (constant w c) r h refl))

  pub and_constant_lem :
      (w c : ℕ) (r : Expr)
      → IsTyped (arithmetic and (constant w c) r)
      → Builds ops true (and_constant ops builder base w c r) (arithmetic and (constant w c) r)
  and_constant_lem w c r h =
      let e = arithmetic and (constant w c) r in
      if-Builds ops true (is_zero c) _ _ e
        (λ p. left-Builds and w c r (λ x f. cc ((==_iff c 0).0 p, laws.and_zero w x f)) h)
        (λ p.
          if-Builds ops true (is_all_ones w c) _ _ e
            (λ q.
              right-Builds and w c r (λ x f. cc ((==_iff c (2 ^ w - 1)).0 q, laws.and_ones w x f))
                h)
            (λ q. sound.arithmetic_lem and (constant w c) r h refl))

  pub or_constant_lem :
      (w c : ℕ) (r : Expr)
      → IsTyped (arithmetic or (constant w c) r)
      → Builds ops true (or_constant ops builder base w c r) (arithmetic or (constant w c) r)
  or_constant_lem w c r h =
      let e = arithmetic or (constant w c) r in
      if-Builds ops true (is_zero c) _ _ e
        (λ p. right-Builds or w c r (λ x f. cc ((==_iff c 0).0 p, laws.or_zero w x f)) h)
        (λ p.
          if-Builds ops true (is_all_ones w c) _ _ e
            (λ q.
              left-Builds or w c r (λ x f. cc ((==_iff c (2 ^ w - 1)).0 q, laws.or_ones w x f)) h)
            (λ q. sound.arithmetic_lem or (constant w c) r h refl))

  pub xor_constant_lem :
      (w c : ℕ) (r : Expr)
      → IsTyped (arithmetic xor (constant w c) r)
      → Builds ops true (xor_constant ops builder base w c r) (arithmetic xor (constant w c) r)
  xor_constant_lem w c r h =
      if-Builds ops true (is_zero c) _ _ (arithmetic xor (constant w c) r)
        (λ p. right-Builds xor w c r (λ x f. cc ((==_iff c 0).0 p, laws.xor_zero w x f)) h)
        (λ p. sound.arithmetic_lem xor (constant w c) r h refl)

  pub commuting_by_lem :
      (k : ArithmeticKind) (f : ℕ → ℕ → Expr → Option Expr)
      → ((w c : ℕ) (r : Expr)
          → IsTyped (arithmetic k (constant w c) r)
          → Builds ops true (f w c r) (arithmetic k (constant w c) r))
      → ((w a b : ℕ) → arithmetic_value ops k w a b ≡ arithmetic_value ops k w b a)
      → is_division k ≡ false
      → {l r : Expr} (cl : Constness l) (cr : Constness r) → IsTyped (arithmetic k l r)
      → Builds ops true
          (commuting_by ops builder base f (base.build_arithmetic k) cl cr)
          (arithmetic k l r)
  commuting_by_lem k f lem swap plain (a_constant w c) (a_constant v d) h =
      sound.arithmetic_lem k (constant w c) (constant v d) h
        (plain-IsSafe k (constant w c) (constant v d) plain)
  commuting_by_lem k f lem swap plain (a_constant w c) (no_constant r z) h = lem w c r h
  commuting_by_lem k f lem swap plain (no_constant l z) (a_constant w c) h =
      let s = turned-Implements ops k l (constant w c) swap h in
      Builds-trans ops true _ (arithmetic k (constant w c) l) (arithmetic k l (constant w c))
        (lem w c l s.0) s (omega arith)
  commuting_by_lem k f lem swap plain (no_constant l z) (no_constant r z') h =
      sound.arithmetic_lem k l r h (plain-IsSafe k l r plain)
