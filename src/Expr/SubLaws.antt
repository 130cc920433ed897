-- ===== src/Expr/SubLaws.antt =====
-- klee/lib/Expr/ExprBuilder.cpp: that ConstantFoldingBuilder::Sub builds differences.
use cgs.Prelude.{false, ◌≡◌, ℕ, suc, ◌+◌, ◌≤◌, ◌∙◌, refl, sym, true, arith}
use cgs.Expr.Node.{
  is_division, Expr, Constness, a_constant, no_constant, Term, a_sum, a_difference, another_term,
  term, ArithmeticKind, constant, arithmetic, add, sub, width, size,
}
use cgs.Expr.ApInt.{ApInt, ApIntLaws}
use cgs.Expr.Value.{IsTyped}
use cgs.Expr.Builder.{ExprBuilder}
use cgs.Expr.Sound.{Implements, Implements-sym, Builds, Builds-trans, IsSound}
use cgs.Expr.SpecializedLaws.{size-positive}
use cgs.Expr.Regrouping.{zero-HasWidth}
use cgs.Expr.Regrouping.Differences.{
  minus_add_lem, minus_add_swap_lem, minus_sub_lem, minus_sub_right_lem, negate_plus_lem,
  sum_difference_right_lem, negate_minus_left_lem, negate_minus_right_lem, negate_sub_lem,
  sub_sub_lem,
}
use cgs.Expr.AddLaws.{add_constant_lem}
use cgs.Expr.FoldingSteps.{
  size-no_constant, Below, op-HasWidth, fold-Implements, neg-Implements, left_rule, direct-Builds,
  nested-Builds,
}
use cgs.Expr.Folding.{sub_from_constant, sub_constant, sub_right, sub_left, sub_by}

module _ (ops : ApInt) (laws : ApIntLaws ops) (base : ExprBuilder) (sound : IsSound ops true base)
    (builder : ExprBuilder) (total left : ℕ)
    (rec : (k : ArithmeticKind) (l r : Expr)
      → is_division k ≡ false
      → IsTyped (arithmetic k l r)
      → Below total left l r
      → Builds ops true (builder.build_arithmetic k l r) (arithmetic k l r)) where
  sub_from_constant_lem :
      (w c : ℕ) {r : Expr} (t : Term r)
      → IsTyped (arithmetic sub (constant w c) r)
      → suc (size r) ≤ total
      → Builds ops true (sub_from_constant ops builder base w c t) (arithmetic sub (constant w c) r)
  sub_from_constant_lem w c (a_sum {b = y} (a_constant v d) e) (hc, (hd, hx, e1), e0) hs =
      direct-Builds ops laws builder total left rec sub refl
        (constant w (ops.arithmetic_op sub w c d)) y
        (arithmetic sub (constant w c) (arithmetic add (constant v d) y))
        (left_rule ops laws w sub (constant w (ops.arithmetic_op sub w c d))
          (arithmetic sub (constant w c) (constant v d)) y
          (arithmetic sub (constant w c) (arithmetic add (constant v d) y))
          (fold-Implements ops laws sub w c v d refl (hc, hd, sym (sym e0)))
          (op-HasWidth ops laws sub w (constant w c) (constant v d) (hc, refl) (hd, sym e0))
          (hx, sym e1 ∙ sym e0)
          (minus_add_lem ops laws w (constant w c) (constant v d) y (hc, refl) (hd, sym e0)
            (hx, sym e1 ∙ sym e0)))
        (omega (arith, size-positive y)) (omega arith)
  sub_from_constant_lem w c (a_sum (no_constant x z) (a_constant v d)) (hc, (hx, hd, e1), e0) hs =
      direct-Builds ops laws builder total left rec sub refl
        (constant w (ops.arithmetic_op sub w c d)) x
        (arithmetic sub (constant w c) (arithmetic add x (constant v d)))
        (left_rule ops laws w sub (constant w (ops.arithmetic_op sub w c d))
          (arithmetic sub (constant w c) (constant v d)) x
          (arithmetic sub (constant w c) (arithmetic add x (constant v d)))
          (fold-Implements ops laws sub w c v d refl (hc, hd, sym (sym e1 ∙ sym e0)))
          (op-HasWidth ops laws sub w (constant w c) (constant v d) (hc, refl)
            (hd, sym e1 ∙ sym e0))
          (hx, sym e0)
          (minus_add_swap_lem ops laws w (constant w c) (constant v d) x (hc, refl)
            (hd, sym e1 ∙ sym e0) (hx, sym e0)))
        (omega (arith, size-positive x)) (omega arith)
  sub_from_constant_lem w c (a_sum (no_constant x z) (no_constant y z')) h hs =
      sound.arithmetic_lem sub (constant w c) (arithmetic add x y) h refl
  sub_from_constant_lem w c (a_difference {b = y} (a_constant v d) e) (hc, (hd, hx, e1), e0) hs =
      direct-Builds ops laws builder total left rec add refl
        (constant w (ops.arithmetic_op sub w c d)) y
        (arithmetic sub (constant w c) (arithmetic sub (constant v d) y))
        (left_rule ops laws w add (constant w (ops.arithmetic_op sub w c d))
          (arithmetic sub (constant w c) (constant v d)) y
          (arithmetic sub (constant w c) (arithmetic sub (constant v d) y))
          (fold-Implements ops laws sub w c v d refl (hc, hd, sym (sym e0)))
          (op-HasWidth ops laws sub w (constant w c) (constant v d) (hc, refl) (hd, sym e0))
          (hx, sym e1 ∙ sym e0)
          (minus_sub_lem ops laws w (constant w c) (constant v d) y (hc, refl) (hd, sym e0)
            (hx, sym e1 ∙ sym e0)))
        (omega (arith, size-positive y)) (omega arith)
  sub_from_constant_lem w c (a_difference (no_constant x z) (a_constant v d)) (hc, (hx, hd, e1), e0)
        hs =
      direct-Builds ops laws builder total left rec sub refl
        (constant w (ops.arithmetic_op add w c d)) x
        (arithmetic sub (constant w c) (arithmetic sub x (constant v d)))
        (left_rule ops laws w sub (constant w (ops.arithmetic_op add w c d))
          (arithmetic add (constant w c) (constant v d)) x
          (arithmetic sub (constant w c) (arithmetic sub x (constant v d)))
          (fold-Implements ops laws add w c v d refl (hc, hd, sym (sym e1 ∙ sym e0)))
          (op-HasWidth ops laws add w (constant w c) (constant v d) (hc, refl)
            (hd, sym e1 ∙ sym e0))
          (hx, sym e0)
          (minus_sub_right_lem ops laws w (constant w c) x (constant v d) (hc, refl) (hx, sym e0)
            (hd, sym e1 ∙ sym e0)))
        (omega (arith, size-positive x)) (omega arith)
  sub_from_constant_lem w c (a_difference (no_constant x z) (no_constant y z')) h hs =
      sound.arithmetic_lem sub (constant w c) (arithmetic sub x y) h refl
  sub_from_constant_lem w c (another_term r) h hs = sound.arithmetic_lem sub (constant w c) r h refl

  sub_constant_lem :
      (l : Expr) (v d : ℕ)
      → IsTyped (arithmetic sub l (constant v d))
      → suc (size l) ≤ total
      → Builds ops true (sub_constant ops builder base l v d) (arithmetic sub l (constant v d))
  sub_constant_lem l v d (hl, hd, e) ht =
      let zero_less_d = arithmetic sub (constant (width l) 0) (constant v d) in
      let rule : Implements ops (arithmetic add (constant v (ops.neg v d)) l)
          (arithmetic sub l (constant v d)) =
        left_rule ops laws (width l) add (constant v (ops.neg v d)) zero_less_d l
          (arithmetic sub l (constant v d)) (neg-Implements ops laws (width l) v d (sym e) hd)
          (op-HasWidth ops laws sub (width l) (constant (width l) 0) (constant v d)
            (zero-HasWidth ops laws (width l)) (hd, sym e))
          (hl, refl) (negate_plus_lem ops laws (width l) l (constant v d) (hl, refl) (hd, sym e)) in
      Builds-trans ops true _ (arithmetic add (constant v (ops.neg v d)) l)
        (arithmetic sub l (constant v d))
        (add_constant_lem ops laws base sound builder total left rec v (ops.neg v d) l rule.0 ht)
        rule (omega arith)

  sub_right_lem :
      (l : Expr) {r : Expr} (t : Term r)
      → IsTyped (arithmetic sub l r)
      → 2 ≤ size l
      → size l + size r ≤ total
      → size l ≤ left
      → Builds ops true (sub_right ops builder base l t) (arithmetic sub l r)
  sub_right_lem l (a_sum {b = x} (a_constant v d) e) (hl, (hd, hx, e1), e0) h2 ht hs =
      nested-Builds ops laws builder total left rec sub add refl refl (constant v (ops.neg v d)) l x
        (arithmetic sub l (arithmetic add (constant v d) x))
        (left_rule ops laws (width l) add (constant v (ops.neg v d))
          (arithmetic sub (constant (width l) 0) (constant v d)) (arithmetic sub l x)
          (arithmetic sub l (arithmetic add (constant v d) x))
          (neg-Implements ops laws (width l) v d (sym e0) hd)
          (op-HasWidth ops laws sub (width l) (constant (width l) 0) (constant v d)
            (zero-HasWidth ops laws (width l)) (hd, sym e0))
          (op-HasWidth ops laws sub (width l) l x (hl, refl) (hx, sym e1 ∙ sym e0))
          (negate_minus_left_lem ops laws (width l) l (constant v d) x (hl, refl) (hd, sym e0)
            (hx, sym e1 ∙ sym e0)))
        (omega arith) (omega arith) (omega arith) (omega arith)
  sub_right_lem l (a_sum (no_constant x z) (a_constant v d)) (hl, (hx, hd, e1), e0) h2 ht hs =
      nested-Builds ops laws builder total left rec sub add refl refl (constant v (ops.neg v d)) l x
        (arithmetic sub l (arithmetic add x (constant v d)))
        (left_rule ops laws (width l) add (constant v (ops.neg v d))
          (arithmetic sub (constant (width l) 0) (constant v d)) (arithmetic sub l x)
          (arithmetic sub l (arithmetic add x (constant v d)))
          (neg-Implements ops laws (width l) v d (sym e1 ∙ sym e0) hd)
          (op-HasWidth ops laws sub (width l) (constant (width l) 0) (constant v d)
            (zero-HasWidth ops laws (width l)) (hd, sym e1 ∙ sym e0))
          (op-HasWidth ops laws sub (width l) l x (hl, refl) (hx, sym e0))
          (negate_minus_right_lem ops laws (width l) l x (constant v d) (hl, refl) (hx, sym e0)
            (hd, sym e1 ∙ sym e0)))
        (omega arith) (omega arith) (omega arith) (omega arith)
  sub_right_lem l (a_sum (no_constant x z) (no_constant y z')) h h2 ht hs =
      sound.arithmetic_lem sub l (arithmetic add x y) h refl
  sub_right_lem l (a_difference {b = x} (a_constant v d) e) (hl, (hd, hx, e1), e0) h2 ht hs =
      nested-Builds ops laws builder total left rec add add refl refl (constant v (ops.neg v d)) l x
        (arithmetic sub l (arithmetic sub (constant v d) x))
        (left_rule ops laws (width l) add (constant v (ops.neg v d))
          (arithmetic sub (constant (width l) 0) (constant v d)) (arithmetic add l x)
          (arithmetic sub l (arithmetic sub (constant v d) x))
          (neg-Implements ops laws (width l) v d (sym e0) hd)
          (op-HasWidth ops laws sub (width l) (constant (width l) 0) (constant v d)
            (zero-HasWidth ops laws (width l)) (hd, sym e0))
          (op-HasWidth ops laws add (width l) l x (hl, refl) (hx, sym e1 ∙ sym e0))
          (negate_sub_lem ops laws (width l) l (constant v d) x (hl, refl) (hd, sym e0)
            (hx, sym e1 ∙ sym e0)))
        (omega arith) (omega arith) (omega arith) (omega arith)
  sub_right_lem l (a_difference (no_constant x z) (a_constant v d)) (hl, (hx, hd, e1), e0) h2 ht
        hs =
      nested-Builds ops laws builder total left rec sub add refl refl (constant v d) l x
        (arithmetic sub l (arithmetic sub x (constant v d)))
        (sub_sub_lem ops laws (width l) l x (constant v d) (hl, refl) (hx, sym e0)
          (hd, sym e1 ∙ sym e0))
        (omega arith) (omega arith) (omega arith) (omega arith)
  sub_right_lem l (a_difference (no_constant x z) (no_constant y z')) h h2 ht hs =
      sound.arithmetic_lem sub l (arithmetic sub x y) h refl
  sub_right_lem l (another_term r) h h2 ht hs = sound.arithmetic_lem sub l r h refl

  sub_left_lem :
      {l : Expr} (t : Term l) (r : Expr)
      → IsTyped (arithmetic sub l r)
      → 2 ≤ size l
      → size l + size r ≤ total
      → size l ≤ left
      → Builds ops true (sub_left ops builder base t r) (arithmetic sub l r)
  sub_left_lem (a_sum {a = x} {b = y} p q) r ((hx, hy, e1), hr, e0) h2 ht hs =
      nested-Builds ops laws builder total left rec sub add refl refl x y r
        (arithmetic sub (arithmetic add x y) r)
        (sum_difference_right_lem ops laws (width x) x y r (hx, refl) (hy, sym e1) (hr, sym e0))
        (omega (arith, size-positive x)) (omega arith) (omega arith) (omega arith)
  sub_left_lem (a_difference {a = x} {b = y} p q) r ((hx, hy, e1), hr, e0) h2 ht hs =
      nested-Builds ops laws builder total left rec add sub refl refl x y r
        (arithmetic sub (arithmetic sub x y) r)
        (Implements-sym ops (arithmetic sub (arithmetic sub x y) r)
          (arithmetic sub x (arithmetic add y r))
          (op-HasWidth ops laws sub (width x) x (arithmetic add y r) (hx, refl)
            (op-HasWidth ops laws add (width x) y r (hy, sym e1) (hr, sym e0))).0
          (minus_add_lem ops laws (width x) x y r (hx, refl) (hy, sym e1) (hr, sym e0)))
        (omega (arith, size-positive x)) (omega arith) (omega arith) (omega arith)
  sub_left_lem (another_term l) r h h2 ht hs = sub_right_lem l (term r) h h2 ht hs

  pub sub_by_lem :
      {l r : Expr} (cl : Constness l) (cr : Constness r)
      → IsTyped (arithmetic sub l r)
      → size l + size r ≤ total
      → size l ≤ left
      → Builds ops true (sub_by ops builder base cl cr) (arithmetic sub l r)
  sub_by_lem (a_constant w c) (a_constant v d) h ht hs = sound.arithmetic_lem sub _ _ h refl
  sub_by_lem (a_constant w c) (no_constant r z) h ht hs =
      sub_from_constant_lem w c (term r) h (omega arith)
  sub_by_lem (no_constant l z) (a_constant v d) h ht hs = sub_constant_lem l v d h (omega arith)
  sub_by_lem (no_constant l z) (no_constant r z') h ht hs =
      sub_left_lem (term l) r h (size-no_constant l z) ht hs
