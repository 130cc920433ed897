-- ===== src/Expr/Regrouping/Sums.antt =====
-- klee/lib/Expr/ExprBuilder.cpp: the equations behind the rewritings of ConstantFoldingBuilder::Add.
use cgs.Prelude.{ℕ, ◌^◌, ◌∙◌, refl, sym}
use cgs.Expr.Node.{Expr, constant, arithmetic, add, sub}
use cgs.Expr.ApInt.{ApInt, ApIntLaws}
use cgs.Expr.Words
use cgs.Expr.Words.{plus, minus}
use cgs.Expr.Sound.{Implements}
use cgs.Expr.Regrouping.{HasWidth, sum_value, difference_value, value-Fits, zero-HasWidth}

module _ (ops : ApInt) (laws : ApIntLaws ops) where
  pub plus_comm_lem :
      (w : ℕ) (a b : Expr)
      → HasWidth w a
      → HasWidth w b
      → Implements ops (arithmetic add b a) (arithmetic add a b)
  plus_comm_lem w a b ta tb = (
    (tb.0, ta.0, tb.1 ∙ sym ta.1),
    tb.1 ∙ sym ta.1,
    λ contents fit. cc (
      sum_value ops laws contents w b a tb.1,
      sum_value ops laws contents w a b ta.1,
      Words.plus_comm (2 ^ w) _ _ (value-Fits ops laws contents w a fit ta)
          (value-Fits ops laws contents w b fit tb),
    ),
  )

  pub plus_assoc_lem :
      (w : ℕ) (a b c : Expr)
      → HasWidth w a
      → HasWidth w b
      → HasWidth w c
      → Implements ops
          (arithmetic add (arithmetic add a b) c)
          (arithmetic add a (arithmetic add b c))
  plus_assoc_lem w a b c ta tb tc = (
    ((ta.0, tb.0, ta.1 ∙ sym tb.1), tc.0, ta.1 ∙ sym tc.1),
    refl,
    λ contents fit. cc (
      sum_value ops laws contents w a b ta.1,
      sum_value ops laws contents w (arithmetic add a b) c ta.1,
      sum_value ops laws contents w b c tb.1,
      sum_value ops laws contents w a (arithmetic add b c) ta.1,
      Words.plus_assoc (2 ^ w) _ _ _ (value-Fits ops laws contents w a fit ta)
          (value-Fits ops laws contents w b fit tb) (value-Fits ops laws contents w c fit tc),
    ),
  )

  pub plus_swap_lem :
      (w : ℕ) (a b c : Expr)
      → HasWidth w a
      → HasWidth w b
      → HasWidth w c
      → Implements ops
          (arithmetic add (arithmetic add a b) c)
          (arithmetic add a (arithmetic add c b))
  plus_swap_lem w a b c ta tb tc = (
    ((ta.0, tb.0, ta.1 ∙ sym tb.1), tc.0, ta.1 ∙ sym tc.1),
    refl,
    λ contents fit. cc (
      sum_value ops laws contents w a b ta.1,
      sum_value ops laws contents w (arithmetic add a b) c ta.1,
      sum_value ops laws contents w c b tc.1,
      sum_value ops laws contents w a (arithmetic add c b) ta.1,
      Words.plus_swap (2 ^ w) _ _ _ (value-Fits ops laws contents w a fit ta)
          (value-Fits ops laws contents w b fit tb) (value-Fits ops laws contents w c fit tc),
    ),
  )

  pub sum_difference_lem :
      (w : ℕ) (a b c : Expr)
      → HasWidth w a
      → HasWidth w b
      → HasWidth w c
      → Implements ops
          (arithmetic sub (arithmetic add a b) c)
          (arithmetic add a (arithmetic sub b c))
  sum_difference_lem w a b c ta tb tc = (
    ((ta.0, tb.0, ta.1 ∙ sym tb.1), tc.0, ta.1 ∙ sym tc.1),
    refl,
    λ contents fit. cc (
      sum_value ops laws contents w a b ta.1,
      difference_value ops laws contents w (arithmetic add a b) c ta.1,
      difference_value ops laws contents w b c tb.1,
      sum_value ops laws contents w a (arithmetic sub b c) ta.1,
      Words.sum_difference (2 ^ w) _ _ _ (value-Fits ops laws contents w a fit ta)
          (value-Fits ops laws contents w b fit tb) (value-Fits ops laws contents w c fit tc),
    ),
  )

  pub difference_sum_lem :
      (w : ℕ) (a b c : Expr)
      → HasWidth w a
      → HasWidth w b
      → HasWidth w c
      → Implements ops
          (arithmetic add (arithmetic sub a b) c)
          (arithmetic add a (arithmetic sub c b))
  difference_sum_lem w a b c ta tb tc = (
    ((ta.0, tb.0, ta.1 ∙ sym tb.1), tc.0, ta.1 ∙ sym tc.1),
    refl,
    λ contents fit. cc (
      difference_value ops laws contents w a b ta.1,
      sum_value ops laws contents w (arithmetic sub a b) c ta.1,
      difference_value ops laws contents w c b tc.1,
      sum_value ops laws contents w a (arithmetic sub c b) ta.1,
      Words.difference_sum (2 ^ w) _ _ _ (value-Fits ops laws contents w a fit ta)
          (value-Fits ops laws contents w b fit tb) (value-Fits ops laws contents w c fit tc),
    ),
  )

  pub plus_left_lem :
      (w : ℕ) (a b c : Expr)
      → HasWidth w a
      → HasWidth w b
      → HasWidth w c
      → Implements ops
          (arithmetic add b (arithmetic add a c))
          (arithmetic add a (arithmetic add b c))
  plus_left_lem w a b c ta tb tc = (
    (tb.0, (ta.0, tc.0, ta.1 ∙ sym tc.1), tb.1 ∙ sym ta.1),
    tb.1 ∙ sym ta.1,
    λ contents fit. cc (
      sum_value ops laws contents w a c ta.1,
      sum_value ops laws contents w b (arithmetic add a c) tb.1,
      sum_value ops laws contents w b c tb.1,
      sum_value ops laws contents w a (arithmetic add b c) ta.1,
      Words.plus_left (2 ^ w) _ _ _ (value-Fits ops laws contents w a fit ta)
          (value-Fits ops laws contents w b fit tb) (value-Fits ops laws contents w c fit tc),
    ),
  )

  pub plus_right_lem :
      (w : ℕ) (a b c : Expr)
      → HasWidth w a
      → HasWidth w b
      → HasWidth w c
      → Implements ops
          (arithmetic add c (arithmetic add a b))
          (arithmetic add a (arithmetic add b c))
  plus_right_lem w a b c ta tb tc = (
    (tc.0, (ta.0, tb.0, ta.1 ∙ sym tb.1), tc.1 ∙ sym ta.1),
    tc.1 ∙ sym ta.1,
    λ contents fit. cc (
      sum_value ops laws contents w a b ta.1,
      sum_value ops laws contents w c (arithmetic add a b) tc.1,
      sum_value ops laws contents w b c tb.1,
      sum_value ops laws contents w a (arithmetic add b c) ta.1,
      Words.plus_right (2 ^ w) _ _ _ (value-Fits ops laws contents w a fit ta)
          (value-Fits ops laws contents w b fit tb) (value-Fits ops laws contents w c fit tc),
    ),
  )

  pub sum_difference_left_lem :
      (w : ℕ) (a b c : Expr)
      → HasWidth w a
      → HasWidth w b
      → HasWidth w c
      → Implements ops
          (arithmetic add b (arithmetic sub a c))
          (arithmetic add a (arithmetic sub b c))
  sum_difference_left_lem w a b c ta tb tc = (
    (tb.0, (ta.0, tc.0, ta.1 ∙ sym tc.1), tb.1 ∙ sym ta.1),
    tb.1 ∙ sym ta.1,
    λ contents fit. cc (
      difference_value ops laws contents w a c ta.1,
      sum_value ops laws contents w b (arithmetic sub a c) tb.1,
      difference_value ops laws contents w b c tb.1,
      sum_value ops laws contents w a (arithmetic sub b c) ta.1,
      Words.sum_difference_left (2 ^ w) _ _ _ (value-Fits ops laws contents w a fit ta)
          (value-Fits ops laws contents w b fit tb) (value-Fits ops laws contents w c fit tc),
    ),
  )

  pub minus_negate_lem :
      (w : ℕ) (a b c : Expr)
      → HasWidth w a
      → HasWidth w b
      → HasWidth w c
      → Implements ops
          (arithmetic add (arithmetic sub (constant w 0) c) (arithmetic add a b))
          (arithmetic add a (arithmetic sub b c))
  minus_negate_lem w a b c ta tb tc = (
    (((zero-HasWidth ops laws w).0, tc.0, sym tc.1), (ta.0, tb.0, ta.1 ∙ sym tb.1), sym ta.1),
    sym ta.1,
    λ contents fit. cc (
      difference_value ops laws contents w (constant w 0) c refl,
      sum_value ops laws contents w a b ta.1,
      sum_value ops laws contents w (arithmetic sub (constant w 0) c) (arithmetic add a b) refl,
      difference_value ops laws contents w b c tb.1,
      sum_value ops laws contents w a (arithmetic sub b c) ta.1,
      Words.minus_negate (2 ^ w) _ _ _ (value-Fits ops laws contents w a fit ta)
          (value-Fits ops laws contents w b fit tb) (value-Fits ops laws contents w c fit tc),
    ),
  )
