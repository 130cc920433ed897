-- ===== src/Expr/Create/PartialSumLaws.antt =====
-- klee/lib/Expr/Expr.cpp: that AddExpr_createPartialR and SubExpr_createPartialR build the sum or the
-- difference of a constant and an expression.
use cgs.Prelude.{ℕ, refl, false}
use cgs.Expr.Node.{
  Constness, a_constant, no_constant, constness, Expr, constant, zext, sext, arithmetic, comparison,
  eq, add, sub, or, width,
}
use cgs.Expr.ApInt.{ApInt, ApIntLaws}
use cgs.Expr.Value.{IsTyped}
use cgs.Expr.Sound.{constant_arithmetic_lem, Implements, Builds, Builds-trans_any}
use cgs.Expr.Regrouping.{zero-HasWidth}
use cgs.Expr.Regrouping.Differences.{negate_plus_lem}
use cgs.Expr.FoldingSteps.{op-HasWidth, fold-Implements, left_rule}
use cgs.Expr.Create.BitwiseLaws.{assert-Builds}
use cgs.Expr.Create.Eq.{
  EqOperand, an_eq, a_disjunction, a_sext, a_zext, an_add, a_sub, another_operand, eq_operand,
}
use cgs.Expr.Create.SumSteps.{xor_add-Implements, xor_sub-Implements}
use cgs.Expr.Create.Sum.{add_partial_by, sub_partial_by, sub_partial, add_to, sub_from, sub_by}
use cgs.Expr.Create.PartialSumSteps.{
  constant_left_lem, bit_first_lem, zero_first_lem, plain_add_lem, plain_sub_lem, joined_lem,
  add_add-Implements, add_sub-Implements, sub_add-Implements, sub_sub-Implements,
}

module _ (ops : ApInt) (laws : ApIntLaws ops) where
  mutual
    pub add_partial_by_lem :
        (w c : ℕ) {r : Expr} (o : EqOperand r)
        → IsTyped (arithmetic add (constant w c) r)
        → Builds ops false (add_partial_by ops w c o) (arithmetic add (constant w c) r)
    add_partial_by_lem w c (an_add {b = y} (a_constant v d) o) h =
        bit_first_lem ops laws add w c (arithmetic add (constant v d) y) _
          (λ one.
            xor_add-Implements ops laws (constant w c) (arithmetic add (constant v d) y) one h)
          (zero_first_lem ops laws w c (arithmetic add (constant v d) y) _ h (
            joined_lem ops laws add add refl w c v d y
              (arithmetic add (constant w c) (arithmetic add (constant v d) y)) _ h.2
              (add_add-Implements ops laws w c v d y h)
              (add_partial_by_lem w (ops.arithmetic_op add w c d) o
                (add_add-Implements ops laws w c v d y h).0)))
    add_partial_by_lem w c (a_sub {b = y} (a_constant v d) o) h =
        bit_first_lem ops laws add w c (arithmetic sub (constant v d) y) _
          (λ one.
            xor_add-Implements ops laws (constant w c) (arithmetic sub (constant v d) y) one h)
          (zero_first_lem ops laws w c (arithmetic sub (constant v d) y) _ h (
            joined_lem ops laws add sub refl w c v d y
              (arithmetic add (constant w c) (arithmetic sub (constant v d) y)) _ h.2
              (add_sub-Implements ops laws w c v d y h)
              (sub_partial_by_lem w (ops.arithmetic_op add w c d) o
                (add_sub-Implements ops laws w c v d y h).0)))
    add_partial_by_lem w c (an_add {b = y} (no_constant x z) o) h =
        plain_add_lem ops laws w c (arithmetic add x y) h
    add_partial_by_lem w c (a_sub {b = y} (no_constant x z) o) h =
        plain_add_lem ops laws w c (arithmetic sub x y) h
    add_partial_by_lem w c (an_eq {l = x} z y) h = plain_add_lem ops laws w c (comparison eq x y) h
    add_partial_by_lem w c (a_disjunction {a = x} {b = y} p q) h =
        plain_add_lem ops laws w c (arithmetic or x y) h
    add_partial_by_lem w c (a_sext {e = x} p v) h = plain_add_lem ops laws w c (sext x v) h
    add_partial_by_lem w c (a_zext {e = x} p v) h = plain_add_lem ops laws w c (zext x v) h
    add_partial_by_lem w c (another_operand r) h = plain_add_lem ops laws w c r h

    pub sub_partial_by_lem :
        (w c : ℕ) {r : Expr} (o : EqOperand r)
        → IsTyped (arithmetic sub (constant w c) r)
        → Builds ops false (sub_partial_by ops w c o) (arithmetic sub (constant w c) r)
    sub_partial_by_lem w c (an_add {b = y} (a_constant v d) o) h =
        bit_first_lem ops laws sub w c (arithmetic add (constant v d) y) _
          (λ one.
            xor_sub-Implements ops laws (constant w c) (arithmetic add (constant v d) y) one h)
          (joined_lem ops laws sub sub refl w c v d y
            (arithmetic sub (constant w c) (arithmetic add (constant v d) y)) _ h.2
            (sub_add-Implements ops laws w c v d y h)
            (sub_partial_by_lem w (ops.arithmetic_op sub w c d) o
              (sub_add-Implements ops laws w c v d y h).0))
    sub_partial_by_lem w c (a_sub {b = y} (a_constant v d) o) h =
        bit_first_lem ops laws sub w c (arithmetic sub (constant v d) y) _
          (λ one.
            xor_sub-Implements ops laws (constant w c) (arithmetic sub (constant v d) y) one h)
          (joined_lem ops laws sub add refl w c v d y
            (arithmetic sub (constant w c) (arithmetic sub (constant v d) y)) _ h.2
            (sub_sub-Implements ops laws w c v d y h)
            (add_partial_by_lem w (ops.arithmetic_op sub w c d) o
              (sub_sub-Implements ops laws w c v d y h).0))
    sub_partial_by_lem w c (an_add {b = y} (no_constant x z) o) h =
        plain_sub_lem ops laws w c (arithmetic add x y) h
    sub_partial_by_lem w c (a_sub {b = y} (no_constant x z) o) h =
        plain_sub_lem ops laws w c (arithmetic sub x y) h
    sub_partial_by_lem w c (an_eq {l = x} z y) h = plain_sub_lem ops laws w c (comparison eq x y) h
    sub_partial_by_lem w c (a_disjunction {a = x} {b = y} p q) h =
        plain_sub_lem ops laws w c (arithmetic or x y) h
    sub_partial_by_lem w c (a_sext {e = x} p v) h = plain_sub_lem ops laws w c (sext x v) h
    sub_partial_by_lem w c (a_zext {e = x} p v) h = plain_sub_lem ops laws w c (zext x v) h
    sub_partial_by_lem w c (another_operand r) h = plain_sub_lem ops laws w c r h

  pub add_to_lem :
      (w c : ℕ) (e : Expr)
      → IsTyped (arithmetic add (constant w c) e)
      → Builds ops false (add_to ops w c e) (arithmetic add (constant w c) e)
  add_to_lem w c e h =
      constant_left_lem ops laws add refl w c (constness e) _ h
        (add_partial_by_lem w c (eq_operand e) h)

  pub sub_from_lem :
      (w c : ℕ) (e : Expr)
      → IsTyped (arithmetic sub (constant w c) e)
      → Builds ops false (sub_from ops w c e) (arithmetic sub (constant w c) e)
  sub_from_lem w c e h =
      constant_left_lem ops laws sub refl w c (constness e) _ h
        (sub_partial_by_lem w c (eq_operand e) h)

  pub sub_partial_lem :
      (l : Expr) (w c : ℕ)
      → IsTyped (arithmetic sub l (constant w c))
      → Builds ops false (sub_partial ops l w c) (arithmetic sub l (constant w c))
  sub_partial_lem l w c (hl, hc, e) =
      let z = (zero-HasWidth ops laws w).0 in
      let rule : Implements ops (arithmetic add (constant w (ops.arithmetic_op sub w 0 c)) l)
          (arithmetic sub l (constant w c)) =
        left_rule ops laws w add (constant w (ops.arithmetic_op sub w 0 c))
          (arithmetic sub (constant w 0) (constant w c)) l (arithmetic sub l (constant w c))
          (fold-Implements ops laws sub w 0 w c refl (z, hc, refl))
          (op-HasWidth ops laws sub w (constant w 0) (constant w c) (z, refl) (hc, refl)) (hl, e)
          (negate_plus_lem ops laws w l (constant w c) (hl, e) (hc, refl)) in
      Builds-trans_any ops false _ (arithmetic add (constant w (ops.arithmetic_op sub w 0 c)) l)
        (arithmetic sub l (constant w c))
        (add_partial_by_lem w (ops.arithmetic_op sub w 0 c) (eq_operand l) rule.0) rule

  pub sub_by_lem :
      {e : Expr} (d : Constness e) (w c : ℕ)
      → IsTyped (arithmetic sub e (constant w c))
      → Builds ops false (sub_by ops d w c) (arithmetic sub e (constant w c))
  sub_by_lem (a_constant v d) w c h =
      assert-Builds ops laws v w _ (arithmetic sub (constant v d) (constant w c)) h.2
        (constant_arithmetic_lem ops laws false sub v d w c h refl)
  sub_by_lem (no_constant e z) w c h =
      assert-Builds ops laws (width e) w _ (arithmetic sub e (constant w c)) h.2
        (sub_partial_lem e w c h)
