-- ===== src/Expr/Create/OrderLaws.antt =====
-- klee/lib/Expr/Expr.cpp: that create of the shifts and the orders builds what it is called for.
use cgs.Prelude.{
  ◌&&◌, ℕ, ◌*◌, ◌/◌, ◌%◌, ◌^◌, ◌==◌, ◌≡◌, refl, sym, ap, false, Option, ltb, leb, arith, ==_iff,
}
use cgs.Expr.Node.{
  IsSafe, divides_by_zero, is_division, Constness, a_constant, no_constant, constness, Expr,
  ArithmeticKind, CompareKind, constant, arithmetic, comparison, and, or, shl, lshr, ashr, ult, ule,
  slt, sle, width,
}
use cgs.Expr.ApInt.{ApInt, ApIntLaws, biased}
use cgs.Expr.Constant.{bool_value}
use cgs.Expr.Value.{eval, IsTyped}
use cgs.Expr.Sound.{
  constant_arithmetic_lem, Implements, Builds, Builds-trans_any, constant-Builds, if-Builds,
}
use cgs.Expr.Regrouping.{value-Fits}
use cgs.Expr.EqLaws.{bit_bound}
use cgs.Expr.Create.Bitwise.{and_create, or_create}
use cgs.Expr.Create.BitwiseLaws.{any-Builds, same-any, assert-Builds, and_create_lem, or_create_lem}
use cgs.Expr.Create.Order.{
  shl_other, lshr_other, ashr_other, create_by, plain_create, ult_other, ule_other, slt_other,
  sle_other, compare_by, order_create, ult_create, ule_create, slt_create, sle_create, shl_create,
  lshr_create, ashr_create,
}
use cgs.Expr.Create.OrderSteps.{
  shifted_bit, and_not_lem, not_and_lem, not_or_lem, or_not_lem, right_test_lem, left_test_lem,
}

module _ (ops : ApInt) (laws : ApIntLaws ops) where
  create_by_lem :
      (k : ArithmeticKind) (other : Expr → Expr → Option Expr) {l r : Expr} (cl : Constness l)
      (cr : Constness r)
      → IsTyped (arithmetic k l r)
      → (is_division k && divides_by_zero cl cr) ≡ false
      → Builds ops false (other l r) (arithmetic k l r)
      → Builds ops false (create_by ops k other cl cr) (arithmetic k l r)
  create_by_lem k other (a_constant w c) (a_constant v d) h safe ho =
      constant_arithmetic_lem ops laws false k w c v d h safe
  create_by_lem k other (a_constant w c) (no_constant r z) h safe ho = ho
  create_by_lem k other (no_constant l z) y h safe ho = ho

  pub plain_create_lem :
      (k : ArithmeticKind) (other : Expr → Expr → Option Expr) (l r : Expr)
      → IsTyped (arithmetic k l r)
      → IsSafe k l r
      → Builds ops false (other l r) (arithmetic k l r)
      → Builds ops false (plain_create ops k other l r) (arithmetic k l r)
  plain_create_lem k other l r h safe ho =
      assert-Builds ops laws (width l) (width r) _ (arithmetic k l r) h.2
        (create_by_lem k other (constness l) (constness r) h safe ho)

  compare_by_lem :
      (k : CompareKind) (other : Expr → Expr → Option Expr) {l r : Expr} (cl : Constness l)
      (cr : Constness r)
      → IsTyped (comparison k l r)
      → Builds ops false (other l r) (comparison k l r)
      → Builds ops false (compare_by ops k other cl cr) (comparison k l r)
  compare_by_lem k other (a_constant w c) (a_constant v d) h ho =
      constant-Builds ops laws false (comparison k (constant w c) (constant v d)) _ h
        (λ contents. refl) (omega arith)
  compare_by_lem k other (a_constant w c) (no_constant r z) h ho = ho
  compare_by_lem k other (no_constant l z) y h ho = ho

  order_create_lem :
      (k : CompareKind) (other : Expr → Expr → Option Expr) (l r : Expr)
      → IsTyped (comparison k l r)
      → Builds ops false (other l r) (comparison k l r)
      → Builds ops false (order_create ops k other l r) (comparison k l r)
  order_create_lem k other l r h ho =
      assert-Builds ops laws (width l) (width r) _ (comparison k l r) h.2
        (compare_by_lem k other (constness l) (constness r) h ho)

  pub shl_create_lem :
      (l r : Expr)
      → IsTyped (arithmetic shl l r)
      → Builds ops false (shl_create ops l r) (arithmetic shl l r)
  shl_create_lem l r h =
      let f = λ (x y : ℕ). (x * 2 ^ y) % 2 in
      plain_create_lem shl (shl_other ops) l r h refl (
        if-Builds ops false (width l == 1) _ _ (arithmetic shl l r)
          (λ p.
            let one : width l ≡ 1 = (==_iff (width l) 1).0 p in
            right_test_lem ops laws and (and_create ops) (and_create_lem ops laws) f l r
              (arithmetic shl l r) one h h one
              (λ contents. cc (one, laws.shl_lem 1 (eval ops contents l) (eval ops contents r)))
              (and_not_lem ops laws f (refl, refl, refl, refl)))
          (λ p. same-any ops laws (arithmetic shl l r) h))

  pub lshr_create_lem :
      (l r : Expr)
      → IsTyped (arithmetic lshr l r)
      → Builds ops false (lshr_create ops l r) (arithmetic lshr l r)
  lshr_create_lem l r h =
      let f = λ (x y : ℕ). (x / 2 ^ y) % 2 in
      plain_create_lem lshr (lshr_other ops) l r h refl (
        if-Builds ops false (width l == 1) _ _ (arithmetic lshr l r)
          (λ p.
            let one : width l ≡ 1 = (==_iff (width l) 1).0 p in
            right_test_lem ops laws and (and_create ops) (and_create_lem ops laws) f l r
              (arithmetic lshr l r) one h h one
              (λ contents. cc (one, laws.lshr_lem 1 (eval ops contents l) (eval ops contents r)))
              (and_not_lem ops laws f (refl, refl, refl, refl)))
          (λ p. same-any ops laws (arithmetic lshr l r) h))

  pub ashr_create_lem :
      (l r : Expr)
      → IsTyped (arithmetic ashr l r)
      → Builds ops false (ashr_create ops l r) (arithmetic ashr l r)
  ashr_create_lem l r h = plain_create_lem ashr (ashr_other ops) l r h refl (
      if-Builds ops false (width l == 1) _ _ (arithmetic ashr l r)
        (λ p.
          let one : width l ≡ 1 = (==_iff (width l) 1).0 p in
          any-Builds ops laws l (arithmetic ashr l r) (
            h.0,
            refl,
            λ contents fit.
                let x = eval ops contents l in
                let y = eval ops contents r in
                let a =
                  bit_bound (width l) x one
                    (value-Fits ops laws contents (width l) l fit (h.0, refl)) in
                let b =
                  bit_bound (width l) y one
                    (value-Fits ops laws contents (width l) r fit (h.1, sym h.2)) in
                cc (one, laws.ashr_lem 1 x y, shifted_bit x y a b),
          ))
        (λ p. same-any ops laws (arithmetic ashr l r) h))

  pub ult_create_lem :
      (l r : Expr)
      → IsTyped (comparison ult l r)
      → Builds ops false (ult_create ops l r) (comparison ult l r)
  ult_create_lem l r h =
      let f = λ (x y : ℕ). bool_value (ltb x y) in
      order_create_lem ult (ult_other ops) l r h (
        if-Builds ops false (width l == 1) _ _ (comparison ult l r)
          (λ p.
            left_test_lem ops laws and (and_create ops) (and_create_lem ops laws) f l r
              (comparison ult l r) ((==_iff (width l) 1).0 p) h h refl
              (λ contents.
                ap bool_value (laws.ult_lem (width l) (eval ops contents l) (eval ops contents r)))
              (not_and_lem ops laws f (refl, refl, refl, refl)))
          (λ p. same-any ops laws (comparison ult l r) h))

  pub ule_create_lem :
      (l r : Expr)
      → IsTyped (comparison ule l r)
      → Builds ops false (ule_create ops l r) (comparison ule l r)
  ule_create_lem l r h =
      let f = λ (x y : ℕ). bool_value (leb x y) in
      order_create_lem ule (ule_other ops) l r h (
        if-Builds ops false (width l == 1) _ _ (comparison ule l r)
          (λ p.
            left_test_lem ops laws or (or_create ops) (or_create_lem ops laws) f l r
              (comparison ule l r) ((==_iff (width l) 1).0 p) h h refl
              (λ contents.
                ap bool_value (laws.ule_lem (width l) (eval ops contents l) (eval ops contents r)))
              (not_or_lem ops laws f (refl, refl, refl, refl)))
          (λ p. same-any ops laws (comparison ule l r) h))

  pub slt_create_lem :
      (l r : Expr)
      → IsTyped (comparison slt l r)
      → Builds ops false (slt_create ops l r) (comparison slt l r)
  slt_create_lem l r h =
      let f = λ (x y : ℕ). bool_value (ltb (biased 1 x) (biased 1 y)) in
      order_create_lem slt (slt_other ops) l r h (
        if-Builds ops false (width l == 1) _ _ (comparison slt l r)
          (λ p.
            let one : width l ≡ 1 = (==_iff (width l) 1).0 p in
            right_test_lem ops laws and (and_create ops) (and_create_lem ops laws) f l r
              (comparison slt l r) one h h refl
              (λ contents. cc (one, laws.slt_lem 1 (eval ops contents l) (eval ops contents r)))
              (and_not_lem ops laws f (refl, refl, refl, refl)))
          (λ p. same-any ops laws (comparison slt l r) h))

  pub sle_create_lem :
      (l r : Expr)
      → IsTyped (comparison sle l r)
      → Builds ops false (sle_create ops l r) (comparison sle l r)
  sle_create_lem l r h =
      let f = λ (x y : ℕ). bool_value (leb (biased 1 x) (biased 1 y)) in
      order_create_lem sle (sle_other ops) l r h (
        if-Builds ops false (width l == 1) _ _ (comparison sle l r)
          (λ p.
            let one : width l ≡ 1 = (==_iff (width l) 1).0 p in
            right_test_lem ops laws or (or_create ops) (or_create_lem ops laws) f l r
              (comparison sle l r) one h h refl
              (λ contents. cc (one, laws.sle_lem 1 (eval ops contents l) (eval ops contents r)))
              (or_not_lem ops laws f (refl, refl, refl, refl)))
          (λ p. same-any ops laws (comparison sle l r) h))

  -- A comparison the other way round
  pub turned_create_lem :
      (j k : CompareKind)
      → ((w a b : ℕ) → ops.compare_op k w a b ≡ ops.compare_op j w b a)
      → (create : Expr → Expr → Option Expr)
      → ((l r : Expr)
          → IsTyped (comparison j l r)
          → Builds ops false (create l r) (comparison j l r))
      → (l r : Expr) → IsTyped (comparison k l r)
      → Builds ops false (create r l) (comparison k l r)
  turned_create_lem j k swap create lem l r (hl, hr, e) =
      let rule : Implements ops (comparison j r l) (comparison k l r) = (
        (hr, hl, sym e),
        refl,
        λ contents fit. cc (e, swap (width l) (eval ops contents l) (eval ops contents r)),
      ) in
      Builds-trans_any ops false _ (comparison j r l) (comparison k l r) (lem r l rule.0) rule
