-- ===== src/Expr/Create/ProductLaws.antt =====
-- klee/lib/Expr/Expr.cpp: that create of Xor and Mul builds what it is called for.
use cgs.Prelude.{ℕ, ◌%◌, ◌*◌, ◌^◌, ◌<◌, ◌==◌, ◌≡◌, ◌∙◌, refl, sym, ap, false, arith, ==_iff}
use native.Mathlib.Nat.{mod-eq_of_lt}
use cgs.Expr.Node.{constness, Expr, constant, arithmetic, and, mul, xor, width}
use cgs.Expr.ApInt.{ApInt, ApIntLaws, Fits}
use cgs.Expr.Constant.{is_zero, is_one}
use cgs.Expr.Value.{IsTyped}
use cgs.Expr.Sound.{turned-Implements, Builds, Builds-trans_any, if-Builds}
use cgs.Expr.Regrouping.{value-Fits}
use cgs.Expr.Create.BitwiseLaws.{
  any-Builds, same-any, assert-Builds, binary_by_lem, and_partial_r_lem,
}
use cgs.Expr.Create.SumSteps.{and_mul-Implements, xor_partial_r_lem}
use cgs.Expr.Create.Sum.{
  xor_partial_r, xor_partial, xor_other, xor_create, mul_partial_r, mul_partial, mul_other,
  mul_create,
}

kept_below : (n x : ℕ) → x < n → (1 * x) % n ≡ x
kept_below n x h = let e : 1 * x ≡ x = omega arith in ap (λ (u : ℕ). u % n) e ∙ mod-eq_of_lt h

module _ (ops : ApInt) (laws : ApIntLaws ops) where
  xor_partial_lem :
      (l : Expr) (w c : ℕ)
      → IsTyped (arithmetic xor l (constant w c))
      → Builds ops false (xor_partial ops l w c) (arithmetic xor l (constant w c))
  xor_partial_lem l w c h =
      let s = turned-Implements ops xor l (constant w c) laws.xor_comm h in
      Builds-trans_any ops false _ (arithmetic xor (constant w c) l)
        (arithmetic xor l (constant w c)) (xor_partial_r_lem ops laws w c l s.0) s

  pub xor_create_lem :
      (l r : Expr)
      → IsTyped (arithmetic xor l r)
      → Builds ops false (xor_create ops l r) (arithmetic xor l r)
  xor_create_lem l r h = assert-Builds ops laws (width l) (width r) _ (arithmetic xor l r) h.2 (
      binary_by_lem ops laws xor (xor_partial_r ops) (xor_partial ops) (xor_other ops)
        (xor_partial_r_lem ops laws) xor_partial_lem refl (same-any ops laws (arithmetic xor l r))
        (constness l) (constness r) h)

  mul_comm : (w a b : ℕ) → ops.arithmetic_op mul w a b ≡ ops.arithmetic_op mul w b a
  mul_comm w a b =
      let e : a * b ≡ b * a = grind arith in cc (laws.mul_lem w a b, laws.mul_lem w b a, e)

  one_times : (w x : ℕ) → Fits w x → ops.arithmetic_op mul w 1 x ≡ x
  one_times w x f = laws.mul_lem w 1 x ∙ kept_below (2 ^ w) x f

  zero_times : (w x : ℕ) → Fits w x → ops.arithmetic_op mul w 0 x ≡ 0
  zero_times w x f = let e : (0 * x) % 2 ^ w ≡ 0 = ground arith in laws.mul_lem w 0 x ∙ e

  mul_partial_r_lem :
      (w c : ℕ) (r : Expr)
      → IsTyped (arithmetic mul (constant w c) r)
      → Builds ops false (mul_partial_r ops w c r) (arithmetic mul (constant w c) r)
  mul_partial_r_lem w c r (hc, hr, e) =
      let t = arithmetic mul (constant w c) r in
      if-Builds ops false (w == 1) _ _ t
        (λ p.
          let rule = and_mul-Implements ops laws (constant w c) r ((==_iff w 1).0 p) (hc, hr, e) in
          Builds-trans_any ops false _ (arithmetic and (constant w c) r) t
            (and_partial_r_lem ops laws w c r rule.0) rule)
        (λ p.
          if-Builds ops false (is_one c) _ _ t
            (λ q. any-Builds ops laws r t (
              hr,
              sym e,
              λ contents fit. cc (
                (==_iff c 1).0 q,
                one_times w _ (value-Fits ops laws contents w r fit (hr, sym e)),
              ),
            ))
            (λ q.
              if-Builds ops false (is_zero c) _ _ t
                (λ z. any-Builds ops laws (constant w c) t (
                  hc,
                  refl,
                  λ contents fit. cc (
                    (==_iff c 0).0 z,
                    zero_times w _ (value-Fits ops laws contents w r fit (hr, sym e)),
                  ),
                ))
                (λ z. same-any ops laws t (hc, hr, e))))

  mul_partial_lem :
      (l : Expr) (w c : ℕ)
      → IsTyped (arithmetic mul l (constant w c))
      → Builds ops false (mul_partial ops l w c) (arithmetic mul l (constant w c))
  mul_partial_lem l w c h =
      let s = turned-Implements ops mul l (constant w c) mul_comm h in
      Builds-trans_any ops false _ (arithmetic mul (constant w c) l)
        (arithmetic mul l (constant w c)) (mul_partial_r_lem w c l s.0) s

  mul_other_lem :
      (l r : Expr)
      → IsTyped (arithmetic mul l r)
      → Builds ops false (mul_other ops l r) (arithmetic mul l r)
  mul_other_lem l r h =
      if-Builds ops false (width l == 1) _ _ (arithmetic mul l r)
        (λ p.
          any-Builds ops laws (arithmetic and l r) (arithmetic mul l r)
            (and_mul-Implements ops laws l r ((==_iff (width l) 1).0 p) h))
        (λ p. same-any ops laws (arithmetic mul l r) h)

  pub mul_create_lem :
      (l r : Expr)
      → IsTyped (arithmetic mul l r)
      → Builds ops false (mul_create ops l r) (arithmetic mul l r)
  mul_create_lem l r h = assert-Builds ops laws (width l) (width r) _ (arithmetic mul l r) h.2 (
      binary_by_lem ops laws mul (mul_partial_r ops) (mul_partial ops) (mul_other ops)
        mul_partial_r_lem mul_partial_lem refl (mul_other_lem l r) (constness l) (constness r) h)
