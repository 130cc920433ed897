-- ===== src/Expr/AddLaws.antt =====
-- klee/lib/Expr/ExprBuilder.cpp: that ConstantFoldingBuilder::Add builds sums.
use cgs.Prelude.{false, ◌≡◌, ℕ, suc, ◌+◌, ◌==◌, ◌≤◌, ◌∙◌, refl, sym, true, some, arith, ==_iff}
use cgs.Expr.Node.{
  is_division, Expr, Constness, a_constant, no_constant, Term, a_sum, a_difference, another_term,
  term, ArithmeticKind, constant, arithmetic, add, sub, width, size,
}
use cgs.Expr.ApInt.{ApInt, ApIntLaws}
use cgs.Expr.Value.{IsTyped}
use cgs.Expr.Builder.{ExprBuilder}
use cgs.Expr.Sound.{Implements-sym, Builds, Builds-trans, IsSound, if-Builds, some-Builds}
use cgs.Expr.SpecializedLaws.{size-positive}
use cgs.Expr.Regrouping.{zero-HasWidth}
use cgs.Expr.Regrouping.Sums.{
  plus_comm_lem, plus_assoc_lem, plus_swap_lem, sum_difference_lem, difference_sum_lem,
  plus_left_lem, plus_right_lem, sum_difference_left_lem, minus_negate_lem,
}
use cgs.Expr.FoldingSteps.{
  zero_add-Implements, size-no_constant, Below, op-HasWidth, fold-Implements, neg-Implements,
  left_rule, direct-Builds, nested-Builds,
}
use cgs.Expr.Folding.{add_to_constant, add_constant, add_right, add_left, add_by}

module _ (ops : ApInt) (laws : ApIntLaws ops) (base : ExprBuilder) (sound : IsSound ops true base)
    (builder : ExprBuilder) (total left : ℕ)
    (rec : (k : ArithmeticKind) (l r : Expr)
      → is_division k ≡ false
      → IsTyped (arithmetic k l r)
      → Below total left l r
      → Builds ops true (builder.build_arithmetic k l r) (arithmetic k l r)) where
  add_to_constant_lem :
      (w c : ℕ) {r : Expr} (t : Term r)
      → IsTyped (arithmetic add (constant w c) r)
      → suc (size r) ≤ total
      → Builds ops true (add_to_constant ops builder base w c t) (arithmetic add (constant w c) r)
  add_to_constant_lem w c (a_sum {b = y} (a_constant v d) e) (hc, (hd, hx, e1), e0) hs =
      direct-Builds ops laws builder total left rec add refl
        (constant w (ops.arithmetic_op add w c d)) y
        (arithmetic add (constant w c) (arithmetic add (constant v d) y))
        (left_rule ops laws w add (constant w (ops.arithmetic_op add w c d))
          (arithmetic add (constant w c) (constant v d)) y
          (arithmetic add (constant w c) (arithmetic add (constant v d) y))
          (fold-Implements ops laws add w c v d refl (hc, hd, sym (sym e0)))
          (op-HasWidth ops laws add w (constant w c) (constant v d) (hc, refl) (hd, sym e0))
          (hx, sym e1 ∙ sym e0)
          (plus_assoc_lem ops laws w (constant w c) (constant v d) y (hc, refl) (hd, sym e0)
            (hx, sym e1 ∙ sym e0)))
        (omega (arith, size-positive y)) (omega arith)
  add_to_constant_lem w c (a_sum (no_constant x z) (a_constant v d)) (hc, (hx, hd, e1), e0) hs =
      direct-Builds ops laws builder total left rec add refl
        (constant w (ops.arithmetic_op add w c d)) x
        (arithmetic add (constant w c) (arithmetic add x (constant v d)))
        (left_rule ops laws w add (constant w (ops.arithmetic_op add w c d))
          (arithmetic add (constant w c) (constant v d)) x
          (arithmetic add (constant w c) (arithmetic add x (constant v d)))
          (fold-Implements ops laws add w c v d refl (hc, hd, sym (sym e1 ∙ sym e0)))
          (op-HasWidth ops laws add w (constant w c) (constant v d) (hc, refl)
            (hd, sym e1 ∙ sym e0))
          (hx, sym e0)
          (plus_swap_lem ops laws w (constant w c) (constant v d) x (hc, refl) (hd, sym e1 ∙ sym e0)
            (hx, sym e0)))
        (omega (arith, size-positive x)) (omega arith)
  add_to_constant_lem w c (a_sum (no_constant x z) (no_constant y z')) h hs =
      sound.arithmetic_lem add (constant w c) (arithmetic add x y) h refl
  add_to_constant_lem w c (a_difference {b = y} (a_constant v d) e) (hc, (hd, hx, e1), e0) hs =
      direct-Builds ops laws builder total left rec sub refl
        (constant w (ops.arithmetic_op add w c d)) y
        (arithmetic add (constant w c) (arithmetic sub (constant v d) y))
        (left_rule ops laws w sub (constant w (ops.arithmetic_op add w c d))
          (arithmetic add (constant w c) (constant v d)) y
          (arithmetic add (constant w c) (arithmetic sub (constant v d) y))
          (fold-Implements ops laws add w c v d refl (hc, hd, sym (sym e0)))
          (op-HasWidth ops laws add w (constant w c) (constant v d) (hc, refl) (hd, sym e0))
          (hx, sym e1 ∙ sym e0)
          (sum_difference_lem ops laws w (constant w c) (constant v d) y (hc, refl) (hd, sym e0)
            (hx, sym e1 ∙ sym e0)))
        (omega (arith, size-positive y)) (omega arith)
  add_to_constant_lem w c (a_difference (no_constant x z) (a_constant v d)) (hc, (hx, hd, e1), e0)
        hs =
      direct-Builds ops laws builder total left rec add refl
        (constant w (ops.arithmetic_op sub w c d)) x
        (arithmetic add (constant w c) (arithmetic sub x (constant v d)))
        (left_rule ops laws w add (constant w (ops.arithmetic_op sub w c d))
          (arithmetic sub (constant w c) (constant v d)) x
          (arithmetic add (constant w c) (arithmetic sub x (constant v d)))
          (fold-Implements ops laws sub w c v d refl (hc, hd, sym (sym e1 ∙ sym e0)))
          (op-HasWidth ops laws sub w (constant w c) (constant v d) (hc, refl)
            (hd, sym e1 ∙ sym e0))
          (hx, sym e0)
          (difference_sum_lem ops laws w (constant w c) (constant v d) x (hc, refl)
            (hd, sym e1 ∙ sym e0) (hx, sym e0)))
        (omega (arith, size-positive x)) (omega arith)
  add_to_constant_lem w c (a_difference (no_constant x z) (no_constant y z')) h hs =
      sound.arithmetic_lem add (constant w c) (arithmetic sub x y) h refl
  add_to_constant_lem w c (another_term r) h hs = sound.arithmetic_lem add (constant w c) r h refl

  pub add_constant_lem :
      (w c : ℕ) (r : Expr)
      → IsTyped (arithmetic add (constant w c) r)
      → suc (size r) ≤ total
      → Builds ops true (add_constant ops builder base w c r) (arithmetic add (constant w c) r)
  add_constant_lem w c r h hs =
      if-Builds ops true (c == 0) (some r) _ (arithmetic add (constant w c) r)
        (λ p.
          some-Builds ops true r (arithmetic add (constant w c) r)
            (zero_add-Implements ops laws w c r ((==_iff c 0).0 p) h) (omega arith))
        (λ p. add_to_constant_lem w c (term r) h hs)

  add_right_lem :
      (l : Expr) {r : Expr} (t : Term r)
      → IsTyped (arithmetic add l r)
      → 2 ≤ size l
      → size l + size r ≤ total
      → size l ≤ left
      → Builds ops true (add_right ops builder base l t) (arithmetic add l r)
  add_right_lem l (a_sum {b = x} (a_constant v d) e) (hl, (hd, hx, e1), e0) h2 ht hs =
      nested-Builds ops laws builder total left rec add add refl refl (constant v d) l x
        (arithmetic add l (arithmetic add (constant v d) x))
        (plus_left_lem ops laws (width l) l (constant v d) x (hl, refl) (hd, sym e0)
          (hx, sym e1 ∙ sym e0))
        (omega arith) (omega arith) (omega arith) (omega arith)
  add_right_lem l (a_sum (no_constant x z) (a_constant v d)) (hl, (hx, hd, e1), e0) h2 ht hs =
      nested-Builds ops laws builder total left rec add add refl refl (constant v d) l x
        (arithmetic add l (arithmetic add x (constant v d)))
        (plus_right_lem ops laws (width l) l x (constant v d) (hl, refl) (hx, sym e0)
          (hd, sym e1 ∙ sym e0))
        (omega arith) (omega arith) (omega arith) (omega arith)
  add_right_lem l (a_sum (no_constant x z) (no_constant y z')) h h2 ht hs =
      sound.arithmetic_lem add l (arithmetic add x y) h refl
  add_right_lem l (a_difference {b = x} (a_constant v d) e) (hl, (hd, hx, e1), e0) h2 ht hs =
      nested-Builds ops laws builder total left rec sub add refl refl (constant v d) l x
        (arithmetic add l (arithmetic sub (constant v d) x))
        (sum_difference_left_lem ops laws (width l) l (constant v d) x (hl, refl) (hd, sym e0)
          (hx, sym e1 ∙ sym e0))
        (omega arith) (omega arith) (omega arith) (omega arith)
  add_right_lem l (a_difference (no_constant x z) (a_constant v d)) (hl, (hx, hd, e1), e0) h2 ht
        hs =
      nested-Builds ops laws builder total left rec add add refl refl (constant v (ops.neg v d)) l x
        (arithmetic add l (arithmetic sub x (constant v d)))
        (left_rule ops laws (width l) add (constant v (ops.neg v d))
          (arithmetic sub (constant (width l) 0) (constant v d)) (arithmetic add l x)
          (arithmetic add l (arithmetic sub x (constant v d)))
          (neg-Implements ops laws (width l) v d (sym e1 ∙ sym e0) hd)
          (op-HasWidth ops laws sub (width l) (constant (width l) 0) (constant v d)
            (zero-HasWidth ops laws (width l)) (hd, sym e1 ∙ sym e0))
          (op-HasWidth ops laws add (width l) l x (hl, refl) (hx, sym e0))
          (minus_negate_lem ops laws (width l) l x (constant v d) (hl, refl) (hx, sym e0)
            (hd, sym e1 ∙ sym e0)))
        (omega arith) (omega arith) (omega arith) (omega arith)
  add_right_lem l (a_difference (no_constant x z) (no_constant y z')) h h2 ht hs =
      sound.arithmetic_lem add l (arithmetic sub x y) h refl
  add_right_lem l (another_term r) h h2 ht hs = sound.arithmetic_lem add l r h refl

  add_left_lem :
      {l : Expr} (t : Term l) (r : Expr)
      → IsTyped (arithmetic add l r)
      → 2 ≤ size l
      → size l + size r ≤ total
      → size l ≤ left
      → Builds ops true (add_left ops builder base t r) (arithmetic add l r)
  add_left_lem (a_sum {a = x} {b = y} p q) r ((hx, hy, e1), hr, e0) h2 ht hs =
      nested-Builds ops laws builder total left rec add add refl refl x y r
        (arithmetic add (arithmetic add x y) r)
        (Implements-sym ops (arithmetic add (arithmetic add x y) r)
          (arithmetic add x (arithmetic add y r))
          (op-HasWidth ops laws add (width x) x (arithmetic add y r) (hx, refl)
            (op-HasWidth ops laws add (width x) y r (hy, sym e1) (hr, sym e0))).0
          (plus_assoc_lem ops laws (width x) x y r (hx, refl) (hy, sym e1) (hr, sym e0)))
        (omega (arith, size-positive x)) (omega arith) (omega arith) (omega arith)
  add_left_lem (a_difference {a = x} {b = y} p q) r ((hx, hy, e1), hr, e0) h2 ht hs =
      nested-Builds ops laws builder total left rec sub add refl refl x r y
        (arithmetic add (arithmetic sub x y) r)
        (Implements-sym ops (arithmetic add (arithmetic sub x y) r)
          (arithmetic add x (arithmetic sub r y))
          (op-HasWidth ops laws add (width x) x (arithmetic sub r y) (hx, refl)
            (op-HasWidth ops laws sub (width x) r y (hr, sym e0) (hy, sym e1))).0
          (difference_sum_lem ops laws (width x) x y r (hx, refl) (hy, sym e1) (hr, sym e0)))
        (omega (arith, size-positive x)) (omega arith) (omega arith) (omega arith)
  add_left_lem (another_term l) r h h2 ht hs = add_right_lem l (term r) h h2 ht hs

  pub add_by_lem :
      {l r : Expr} (cl : Constness l) (cr : Constness r)
      → IsTyped (arithmetic add l r)
      → size l + size r ≤ total
      → size l ≤ left
      → Builds ops true (add_by ops builder base cl cr) (arithmetic add l r)
  add_by_lem (a_constant w c) (a_constant v d) h ht hs = sound.arithmetic_lem add _ _ h refl
  add_by_lem (a_constant w c) (no_constant r z) h ht hs = add_constant_lem w c r h (omega arith)
  add_by_lem (no_constant l z) (a_constant w c) (hl, hc, e) ht hs =
      Builds-trans ops true _ (arithmetic add (constant w c) l) (arithmetic add l (constant w c))
        (add_constant_lem w c l (hc, hl, sym e) (omega arith))
        (plus_comm_lem ops laws (width l) l (constant w c) (hl, refl) (hc, sym e)) (omega arith)
  add_by_lem (no_constant l z) (no_constant r z') h ht hs =
      add_left_lem (term l) r h (size-no_constant l z) ht hs
