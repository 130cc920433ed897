-- ===== src/Expr/Create/OtherSumLaws.antt =====
-- klee/lib/Expr/Expr.cpp: AddExpr_create and SubExpr_create, over create of fewer nodes.
use cgs.Prelude.{
  ℕ, ◌+◌, ◌^◌, ◌==◌, ◌≤◌, ◌<◌, ◌≡◌, ◌∙◌, refl, sym, false, Option, ◌>>=◌, arith, ==_iff,
}
use cgs.Expr.Node.{
  a_constant, no_constant, constness, Expr, ArithmeticKind, constant, zext, sext, arithmetic,
  comparison, eq, add, sub, or, xor, width, size, Expr-discrete,
}
use cgs.Expr.ApInt.{ApInt, ApIntLaws, Fits}
use cgs.Expr.Value.{eval, IsTyped}
use cgs.Expr.Words.{minus_self}
use cgs.Expr.Sound.{
  Implements, Implements-refl, Implements-sym, Implements-trans, arithmetic-Implements, Builds,
  Builds-trans_any, Builds->>=, if-Builds,
}
use cgs.Expr.Regrouping.{zero-HasWidth, value-Fits, difference_value}
use cgs.Expr.Regrouping.Sums.{
  plus_assoc_lem, difference_sum_lem, plus_left_lem, sum_difference_left_lem,
}
use cgs.Expr.Regrouping.Differences.{
  sum_difference_right_lem, minus_add_lem, minus_add_swap_lem, minus_sub_right_lem,
}
use cgs.Expr.FoldingSteps.{op-HasWidth}
use cgs.Expr.Create.BitwiseLaws.{any-Builds, same-any}
use cgs.Expr.Create.Eq.{
  EqOperand, an_eq, a_disjunction, a_sext, a_zext, an_add, a_sub, another_operand, eq_operand,
}
use cgs.Expr.Create.SumSteps.{xor_add-Implements, xor_sub-Implements}
use cgs.Expr.Create.PartialSumLaws.{add_to_lem, sub_from_lem, sub_by_lem}
use cgs.Expr.Create.Sum.{
  add_right_by, add_left_by, add_other, sub_right_by, sub_left_by, sub_same_by, sub_other,
}

module _ (ops : ApInt) (laws : ApIntLaws ops) where
  -- What is built first is the right operand, or the left one, of what is built then.
  right_first_lem :
      (j k : ArithmeticKind) (x y z t : Expr) (m : Option Expr) (f : Expr → Option Expr)
      → Builds ops false m (arithmetic j y z)
      → ((s : Expr) → IsTyped (arithmetic k x s) → Builds ops false (f s) (arithmetic k x s))
      → Implements ops (arithmetic k x (arithmetic j y z)) t
      → Builds ops false (m >>= f) t
  right_first_lem j k x y z t m f hm hf rule =
      Builds->>= ops false false m f (arithmetic j y z) t hm (λ s hs size_s.
        let impl : Implements ops (arithmetic k x s) (arithmetic k x (arithmetic j y z)) =
          arithmetic-Implements ops k x x s (arithmetic j y z) (Implements-refl ops x rule.0.0) hs
            rule.0 in
        Builds-trans_any ops false _ (arithmetic k x s) t (hf s impl.0)
          (Implements-trans ops (arithmetic k x s) (arithmetic k x (arithmetic j y z)) t impl rule))

  left_first_lem :
      (j k : ArithmeticKind) (x y z t : Expr) (m : Option Expr) (f : Expr → Option Expr)
      → Builds ops false m (arithmetic j y z)
      → ((s : Expr) → IsTyped (arithmetic k s x) → Builds ops false (f s) (arithmetic k s x))
      → Implements ops (arithmetic k (arithmetic j y z) x) t
      → Builds ops false (m >>= f) t
  left_first_lem j k x y z t m f hm hf rule =
      Builds->>= ops false false m f (arithmetic j y z) t hm (λ s hs size_s.
        let impl : Implements ops (arithmetic k s x) (arithmetic k (arithmetic j y z) x) =
          arithmetic-Implements ops k s (arithmetic j y z) x x hs (Implements-refl ops x rule.0.1)
            rule.0 in
        Builds-trans_any ops false _ (arithmetic k s x) t (hf s impl.0)
          (Implements-trans ops (arithmetic k s x) (arithmetic k (arithmetic j y z) x) t impl rule))

  zero_difference-Implements :
      (l r : Expr)
      → l ≡ r
      → IsTyped (arithmetic sub l r)
      → Implements ops (constant (width l) 0) (arithmetic sub l r)
  zero_difference-Implements l r p (hl, hr, e) = (
    (zero-HasWidth ops laws (width l)).0,
    refl,
    λ contents fit.
        let x = eval ops contents l in
        let f : Fits (width l) x = value-Fits ops laws contents (width l) l fit (hl, refl) in
        cc (p, difference_value ops laws contents (width l) l r refl, minus_self (2 ^ width l) x f),
  )

  module _ (add_rec sub_rec : Expr → Expr → Option Expr) (total : ℕ)
      (add_lem : (l r : Expr)
        → IsTyped (arithmetic add l r)
        → size l + size r < total
        → Builds ops false (add_rec l r) (arithmetic add l r))
      (sub_lem : (l r : Expr)
        → IsTyped (arithmetic sub l r)
        → size l + size r < total
        → Builds ops false (sub_rec l r) (arithmetic sub l r)) where
    add_right_lem :
        (l : Expr) {r : Expr} (o : EqOperand r)
        → IsTyped (arithmetic add l r)
        → size l + size r ≤ total
        → Builds ops false (add_right_by ops add_rec sub_rec l o) (arithmetic add l r)
    add_right_lem l (an_add {b = b} (a_constant w k) y) (hl, (hk, hb, e1), e0) ht =
        right_first_lem add add (constant w k) l b
          (arithmetic add l (arithmetic add (constant w k) b)) _ _
          (add_lem l b (hl, hb, e0 ∙ e1) (omega arith)) (add_to_lem ops laws w k)
          (plus_left_lem ops laws (width l) l (constant w k) b (hl, refl) (hk, sym e0)
            (hb, sym e1 ∙ sym e0))
    add_right_lem l (a_sub {b = b} (a_constant w k) y) (hl, (hk, hb, e1), e0) ht =
        right_first_lem sub add (constant w k) l b
          (arithmetic add l (arithmetic sub (constant w k) b)) _ _
          (sub_lem l b (hl, hb, e0 ∙ e1) (omega arith)) (add_to_lem ops laws w k)
          (sum_difference_left_lem ops laws (width l) l (constant w k) b (hl, refl) (hk, sym e0)
            (hb, sym e1 ∙ sym e0))
    add_right_lem l (an_add {b = y} (no_constant x z) o) h ht =
        same-any ops laws (arithmetic add l (arithmetic add x y)) h
    add_right_lem l (a_sub {b = y} (no_constant x z) o) h ht =
        same-any ops laws (arithmetic add l (arithmetic sub x y)) h
    add_right_lem l (an_eq {l = x} z y) h ht =
        same-any ops laws (arithmetic add l (comparison eq x y)) h
    add_right_lem l (a_disjunction {a = x} {b = y} p q) h ht =
        same-any ops laws (arithmetic add l (arithmetic or x y)) h
    add_right_lem l (a_sext {e = x} p v) h ht = same-any ops laws (arithmetic add l (sext x v)) h
    add_right_lem l (a_zext {e = x} p v) h ht = same-any ops laws (arithmetic add l (zext x v)) h
    add_right_lem l (another_operand r) h ht = same-any ops laws (arithmetic add l r) h

    add_left_lem :
        {l : Expr} (o : EqOperand l) (r : Expr)
        → IsTyped (arithmetic add l r)
        → size l + size r ≤ total
        → Builds ops false (add_left_by ops add_rec sub_rec o r) (arithmetic add l r)
    add_left_lem (an_add {b = a} (a_constant w k) y) r ((hk, ha, e1), hr, e0) ht =
        right_first_lem add add (constant w k) a r
          (arithmetic add (arithmetic add (constant w k) a) r) _ _
          (add_lem a r (ha, hr, sym e1 ∙ e0) (omega arith)) (add_to_lem ops laws w k)
          (Implements-sym ops (arithmetic add (arithmetic add (constant w k) a) r)
            (arithmetic add (constant w k) (arithmetic add a r))
            (op-HasWidth ops laws add w (constant w k) (arithmetic add a r) (hk, refl)
              (op-HasWidth ops laws add w a r (ha, sym e1) (hr, sym e0))).0
            (plus_assoc_lem ops laws w (constant w k) a r (hk, refl) (ha, sym e1) (hr, sym e0)))
    add_left_lem (a_sub {b = a} (a_constant w k) y) r ((hk, ha, e1), hr, e0) ht =
        right_first_lem sub add (constant w k) r a
          (arithmetic add (arithmetic sub (constant w k) a) r) _ _
          (sub_lem r a (hr, ha, sym e0 ∙ e1) (omega arith)) (add_to_lem ops laws w k)
          (Implements-sym ops (arithmetic add (arithmetic sub (constant w k) a) r)
            (arithmetic add (constant w k) (arithmetic sub r a))
            (op-HasWidth ops laws add w (constant w k) (arithmetic sub r a) (hk, refl)
              (op-HasWidth ops laws sub w r a (hr, sym e0) (ha, sym e1))).0
            (difference_sum_lem ops laws w (constant w k) a r (hk, refl) (ha, sym e1) (hr, sym e0)))
    add_left_lem (an_add {b = y} (no_constant x z) o) r h ht =
        add_right_lem (arithmetic add x y) (eq_operand r) h ht
    add_left_lem (a_sub {b = y} (no_constant x z) o) r h ht =
        add_right_lem (arithmetic sub x y) (eq_operand r) h ht
    add_left_lem (an_eq {l = x} z y) r h ht = add_right_lem (comparison eq x y) (eq_operand r) h ht
    add_left_lem (a_disjunction {a = x} {b = y} p q) r h ht =
        add_right_lem (arithmetic or x y) (eq_operand r) h ht
    add_left_lem (a_sext {e = x} p v) r h ht = add_right_lem (sext x v) (eq_operand r) h ht
    add_left_lem (a_zext {e = x} p v) r h ht = add_right_lem (zext x v) (eq_operand r) h ht
    add_left_lem (another_operand l) r h ht = add_right_lem l (eq_operand r) h ht

    sub_right_lem :
        (l : Expr) {r : Expr} (o : EqOperand r)
        → IsTyped (arithmetic sub l r)
        → size l + size r ≤ total
        → Builds ops false (sub_right_by ops add_rec sub_rec l o) (arithmetic sub l r)
    sub_right_lem l (an_add {b = b} (a_constant w k) y) (hl, (hk, hb, e1), e0) ht =
        left_first_lem sub sub (constant w k) l b
          (arithmetic sub l (arithmetic add (constant w k) b)) _ _
          (sub_lem l b (hl, hb, e0 ∙ e1) (omega arith))
          (λ s h. sub_by_lem ops laws (constness s) w k h)
          (minus_add_swap_lem ops laws (width l) l b (constant w k) (hl, refl) (hb, sym e1 ∙ sym e0)
            (hk, sym e0))
    sub_right_lem l (a_sub {b = b} (a_constant w k) y) (hl, (hk, hb, e1), e0) ht =
        left_first_lem add sub (constant w k) l b
          (arithmetic sub l (arithmetic sub (constant w k) b)) _ _
          (add_lem l b (hl, hb, e0 ∙ e1) (omega arith))
          (λ s h. sub_by_lem ops laws (constness s) w k h)
          (minus_sub_right_lem ops laws (width l) l (constant w k) b (hl, refl) (hk, sym e0)
            (hb, sym e1 ∙ sym e0))
    sub_right_lem l (an_add {b = y} (no_constant x z) o) h ht =
        same-any ops laws (arithmetic sub l (arithmetic add x y)) h
    sub_right_lem l (a_sub {b = y} (no_constant x z) o) h ht =
        same-any ops laws (arithmetic sub l (arithmetic sub x y)) h
    sub_right_lem l (an_eq {l = x} z y) h ht =
        same-any ops laws (arithmetic sub l (comparison eq x y)) h
    sub_right_lem l (a_disjunction {a = x} {b = y} p q) h ht =
        same-any ops laws (arithmetic sub l (arithmetic or x y)) h
    sub_right_lem l (a_sext {e = x} p v) h ht = same-any ops laws (arithmetic sub l (sext x v)) h
    sub_right_lem l (a_zext {e = x} p v) h ht = same-any ops laws (arithmetic sub l (zext x v)) h
    sub_right_lem l (another_operand r) h ht = same-any ops laws (arithmetic sub l r) h

    sub_left_lem :
        {l : Expr} (o : EqOperand l) (r : Expr)
        → IsTyped (arithmetic sub l r)
        → size l + size r ≤ total
        → Builds ops false (sub_left_by ops add_rec sub_rec o r) (arithmetic sub l r)
    sub_left_lem (an_add {b = a} (a_constant w k) y) r ((hk, ha, e1), hr, e0) ht =
        right_first_lem sub add (constant w k) a r
          (arithmetic sub (arithmetic add (constant w k) a) r) _ _
          (sub_lem a r (ha, hr, sym e1 ∙ e0) (omega arith)) (add_to_lem ops laws w k)
          (sum_difference_right_lem ops laws w (constant w k) a r (hk, refl) (ha, sym e1)
            (hr, sym e0))
    sub_left_lem (a_sub {b = a} (a_constant w k) y) r ((hk, ha, e1), hr, e0) ht =
        right_first_lem add sub (constant w k) a r
          (arithmetic sub (arithmetic sub (constant w k) a) r) _ _
          (add_lem a r (ha, hr, sym e1 ∙ e0) (omega arith)) (sub_from_lem ops laws w k)
          (Implements-sym ops (arithmetic sub (arithmetic sub (constant w k) a) r)
            (arithmetic sub (constant w k) (arithmetic add a r))
            (op-HasWidth ops laws sub w (constant w k) (arithmetic add a r) (hk, refl)
              (op-HasWidth ops laws add w a r (ha, sym e1) (hr, sym e0))).0
            (minus_add_lem ops laws w (constant w k) a r (hk, refl) (ha, sym e1) (hr, sym e0)))
    sub_left_lem (an_add {b = y} (no_constant x z) o) r h ht =
        sub_right_lem (arithmetic add x y) (eq_operand r) h ht
    sub_left_lem (a_sub {b = y} (no_constant x z) o) r h ht =
        sub_right_lem (arithmetic sub x y) (eq_operand r) h ht
    sub_left_lem (an_eq {l = x} z y) r h ht = sub_right_lem (comparison eq x y) (eq_operand r) h ht
    sub_left_lem (a_disjunction {a = x} {b = y} p q) r h ht =
        sub_right_lem (arithmetic or x y) (eq_operand r) h ht
    sub_left_lem (a_sext {e = x} p v) r h ht = sub_right_lem (sext x v) (eq_operand r) h ht
    sub_left_lem (a_zext {e = x} p v) r h ht = sub_right_lem (zext x v) (eq_operand r) h ht
    sub_left_lem (another_operand l) r h ht = sub_right_lem l (eq_operand r) h ht

    pub add_other_lem :
        (l r : Expr)
        → IsTyped (arithmetic add l r)
        → size l + size r ≤ total
        → Builds ops false (add_other ops add_rec sub_rec l r) (arithmetic add l r)
    add_other_lem l r h ht =
        if-Builds ops false (width l == 1) _ _ (arithmetic add l r)
          (λ p.
            any-Builds ops laws (arithmetic xor l r) (arithmetic add l r)
              (xor_add-Implements ops laws l r ((==_iff (width l) 1).0 p) h))
          (λ p. add_left_lem (eq_operand l) r h ht)

    sub_same_lem :
        {l r : Expr} (d : Dec (l ≡ r))
        → IsTyped (arithmetic sub l r)
        → size l + size r ≤ total
        → Builds ops false (sub_same_by ops add_rec sub_rec d) (arithmetic sub l r)
    sub_same_lem {l = l} {r = r} (yes p) h ht =
        any-Builds ops laws (constant (width l) 0) (arithmetic sub l r)
          (zero_difference-Implements l r p h)
    sub_same_lem {l = l} {r = r} (no p) h ht = sub_left_lem (eq_operand l) r h ht

    pub sub_other_lem :
        (l r : Expr)
        → IsTyped (arithmetic sub l r)
        → size l + size r ≤ total
        → Builds ops false (sub_other ops add_rec sub_rec l r) (arithmetic sub l r)
    sub_other_lem l r h ht =
        if-Builds ops false (width l == 1) _ _ (arithmetic sub l r)
          (λ p.
            any-Builds ops laws (arithmetic xor l r) (arithmetic sub l r)
              (xor_sub-Implements ops laws l r ((==_iff (width l) 1).0 p) h))
          (λ p. sub_same_lem (Expr-discrete l r) h ht)
