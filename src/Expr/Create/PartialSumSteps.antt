-- ===== src/Expr/Create/PartialSumSteps.antt =====
-- klee/lib/Expr/Expr.cpp: the steps of AddExpr_createPartialR and SubExpr_createPartialR.
use cgs.Prelude.{
  ℕ, ◌==◌, ◌≡◌, ◌∙◌, refl, sym, false, Option, some, ◌>>◌, assert, ==_iff, if◌then◌else◌,
}
use cgs.Expr.Node.{
  plain-IsSafe, is_division, Constness, a_constant, no_constant, constness, Expr, ArithmeticKind,
  constant, arithmetic, add, sub, xor, width,
}
use cgs.Expr.ApInt.{ApInt, ApIntLaws}
use cgs.Expr.Constant.{is_zero}
use cgs.Expr.Value.{IsTyped}
use cgs.Expr.Sound.{constant_arithmetic_lem, Implements, Builds, Builds-trans_any, if-Builds}
use cgs.Expr.Regrouping.Sums.{plus_assoc_lem, sum_difference_lem}
use cgs.Expr.Regrouping.Differences.{minus_add_lem, minus_sub_lem}
use cgs.Expr.FoldingSteps.{op-HasWidth, fold-Implements, left_rule, zero_add-Implements}
use cgs.Expr.Create.BitwiseLaws.{any-Builds, same-any, assert-Builds}
use cgs.Expr.Create.SumSteps.{xor_partial_r_lem, xor_add-Implements, xor_sub-Implements}
use cgs.Expr.Create.Sum.{xor_partial_r, constant_left_by}

module _ (ops : ApInt) (laws : ApIntLaws ops) where
  pub constant_left_lem :
      (k : ArithmeticKind)
      → is_division k ≡ false
      → (w c : ℕ) {e : Expr} (d : Constness e) (partial : Option Expr)
      → IsTyped (arithmetic k (constant w c) e)
      → Builds ops false partial (arithmetic k (constant w c) e)
      → Builds ops false (constant_left_by ops k w c d partial) (arithmetic k (constant w c) e)
  constant_left_lem k plain w c (a_constant v d) partial h hp =
      assert-Builds ops laws w v _ (arithmetic k (constant w c) (constant v d)) h.2 (
        constant_arithmetic_lem ops laws false k w c v d h
          (plain-IsSafe k (constant w c) (constant v d) plain))
  constant_left_lem k plain w c (no_constant e z) partial h hp =
      assert-Builds ops laws w (width e) _ (arithmetic k (constant w c) e) h.2 hp

  -- Single bits are added and subtracted by Xor.
  pub bit_first_lem :
      (k : ArithmeticKind) (w c : ℕ) (r : Expr) (n : Option Expr)
      → (w ≡ 1 → Implements ops (arithmetic xor (constant w c) r) (arithmetic k (constant w c) r))
      → Builds ops false n (arithmetic k (constant w c) r)
      → Builds ops false
          (if w == 1 then xor_partial_r ops w c r else n)
          (arithmetic k (constant w c) r)
  bit_first_lem k w c r n rule hn =
      if-Builds ops false (w == 1) _ _ (arithmetic k (constant w c) r)
        (λ p.
          let impl = rule ((==_iff w 1).0 p) in
          Builds-trans_any ops false _ (arithmetic xor (constant w c) r)
            (arithmetic k (constant w c) r) (xor_partial_r_lem ops laws w c r impl.0) impl)
        (λ p. hn)

  pub zero_first_lem :
      (w c : ℕ) (r : Expr) (n : Option Expr)
      → IsTyped (arithmetic add (constant w c) r)
      → Builds ops false n (arithmetic add (constant w c) r)
      → Builds ops false (if is_zero c then some r else n) (arithmetic add (constant w c) r)
  zero_first_lem w c r n h hn =
      if-Builds ops false (is_zero c) _ _ (arithmetic add (constant w c) r)
        (λ p.
          any-Builds ops laws r (arithmetic add (constant w c) r)
            (zero_add-Implements ops laws w c r ((==_iff c 0).0 p) h))
        (λ p. hn)

  pub plain_add_lem :
      (w c : ℕ) (r : Expr)
      → IsTyped (arithmetic add (constant w c) r)
      → Builds ops false
          (if w == 1
            then xor_partial_r ops w c r
            else if is_zero c
            then some r
            else some (arithmetic add (constant w c) r))
          (arithmetic add (constant w c) r)
  plain_add_lem w c r h =
      bit_first_lem add w c r _ (λ one. xor_add-Implements ops laws (constant w c) r one h)
        (zero_first_lem w c r _ h (same-any ops laws (arithmetic add (constant w c) r) h))

  pub plain_sub_lem :
      (w c : ℕ) (r : Expr)
      → IsTyped (arithmetic sub (constant w c) r)
      → Builds ops false
          (if w == 1 then xor_partial_r ops w c r else some (arithmetic sub (constant w c) r))
          (arithmetic sub (constant w c) r)
  plain_sub_lem w c r h =
      bit_first_lem sub w c r _ (λ one. xor_sub-Implements ops laws (constant w c) r one h)
        (same-any ops laws (arithmetic sub (constant w c) r) h)

  -- The constants come together first.
  pub joined_lem :
      (j k : ArithmeticKind)
      → is_division k ≡ false
      → (w c v d : ℕ) (y t : Expr) (rest : Option Expr) → w ≡ v
      → Implements ops (arithmetic k (constant w (ops.arithmetic_op j w c d)) y) t
      → Builds ops false rest (arithmetic k (constant w (ops.arithmetic_op j w c d)) y)
      → Builds ops false
          (assert (w == v)
            >> constant_left_by ops k w (ops.arithmetic_op j w c d) (constness y) rest)
          t
  joined_lem j k plain w c v d y t rest e0 rule hr =
      let cd = ops.arithmetic_op j w c d in
      assert-Builds ops laws w v _ t e0 (
        Builds-trans_any ops false _ (arithmetic k (constant w cd) y) t
          (constant_left_lem k plain w cd (constness y) rest rule.0 hr) rule)

  pub add_add-Implements :
      (w c v d : ℕ) (y : Expr)
      → IsTyped (arithmetic add (constant w c) (arithmetic add (constant v d) y))
      → Implements ops
          (arithmetic add (constant w (ops.arithmetic_op add w c d)) y)
          (arithmetic add (constant w c) (arithmetic add (constant v d) y))
  add_add-Implements w c v d y (hc, (hd, hy, e1), e0) =
      left_rule ops laws w add (constant w (ops.arithmetic_op add w c d))
        (arithmetic add (constant w c) (constant v d)) y
        (arithmetic add (constant w c) (arithmetic add (constant v d) y))
        (fold-Implements ops laws add w c v d refl (hc, hd, e0))
        (op-HasWidth ops laws add w (constant w c) (constant v d) (hc, refl) (hd, sym e0))
        (hy, sym e1 ∙ sym e0)
        (plus_assoc_lem ops laws w (constant w c) (constant v d) y (hc, refl) (hd, sym e0)
          (hy, sym e1 ∙ sym e0))

  pub add_sub-Implements :
      (w c v d : ℕ) (y : Expr)
      → IsTyped (arithmetic add (constant w c) (arithmetic sub (constant v d) y))
      → Implements ops
          (arithmetic sub (constant w (ops.arithmetic_op add w c d)) y)
          (arithmetic add (constant w c) (arithmetic sub (constant v d) y))
  add_sub-Implements w c v d y (hc, (hd, hy, e1), e0) =
      left_rule ops laws w sub (constant w (ops.arithmetic_op add w c d))
        (arithmetic add (constant w c) (constant v d)) y
        (arithmetic add (constant w c) (arithmetic sub (constant v d) y))
        (fold-Implements ops laws add w c v d refl (hc, hd, e0))
        (op-HasWidth ops laws add w (constant w c) (constant v d) (hc, refl) (hd, sym e0))
        (hy, sym e1 ∙ sym e0)
        (sum_difference_lem ops laws w (constant w c) (constant v d) y (hc, refl) (hd, sym e0)
          (hy, sym e1 ∙ sym e0))

  pub sub_add-Implements :
      (w c v d : ℕ) (y : Expr)
      → IsTyped (arithmetic sub (constant w c) (arithmetic add (constant v d) y))
      → Implements ops
          (arithmetic sub (constant w (ops.arithmetic_op sub w c d)) y)
          (arithmetic sub (constant w c) (arithmetic add (constant v d) y))
  sub_add-Implements w c v d y (hc, (hd, hy, e1), e0) =
      left_rule ops laws w sub (constant w (ops.arithmetic_op sub w c d))
        (arithmetic sub (constant w c) (constant v d)) y
        (arithmetic sub (constant w c) (arithmetic add (constant v d) y))
        (fold-Implements ops laws sub w c v d refl (hc, hd, e0))
        (op-HasWidth ops laws sub w (constant w c) (constant v d) (hc, refl) (hd, sym e0))
        (hy, sym e1 ∙ sym e0)
        (minus_add_lem ops laws w (constant w c) (constant v d) y (hc, refl) (hd, sym e0)
          (hy, sym e1 ∙ sym e0))

  pub sub_sub-Implements :
      (w c v d : ℕ) (y : Expr)
      → IsTyped (arithmetic sub (constant w c) (arithmetic sub (constant v d) y))
      → Implements ops
          (arithmetic add (constant w (ops.arithmetic_op sub w c d)) y)
          (arithmetic sub (constant w c) (arithmetic sub (constant v d) y))
  sub_sub-Implements w c v d y (hc, (hd, hy, e1), e0) =
      left_rule ops laws w add (constant w (ops.arithmetic_op sub w c d))
        (arithmetic sub (constant w c) (constant v d)) y
        (arithmetic sub (constant w c) (arithmetic sub (constant v d) y))
        (fold-Implements ops laws sub w c v d refl (hc, hd, e0))
        (op-HasWidth ops laws sub w (constant w c) (constant v d) (hc, refl) (hd, sym e0))
        (hy, sym e1 ∙ sym e0)
        (minus_sub_lem ops laws w (constant w c) (constant v d) y (hc, refl) (hd, sym e0)
          (hy, sym e1 ∙ sym e0))
