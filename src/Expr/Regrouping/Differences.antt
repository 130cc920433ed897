-- ===== src/Expr/Regrouping/Differences.antt =====
-- klee/lib/Expr/ExprBuilder.cpp: the equations behind the rewritings of ConstantFoldingBuilder::Sub.
use cgs.Prelude.{ℕ, ◌^◌, ◌∙◌, refl, sym}
use cgs.Expr.Node.{Expr, constant, arithmetic, add, sub}
use cgs.Expr.ApInt.{ApInt, ApIntLaws}
use cgs.Expr.Words
use cgs.Expr.Words.{plus, minus}
use cgs.Expr.Sound.{Implements}
use cgs.Expr.Regrouping.{HasWidth, sum_value, difference_value, value-Fits, zero-HasWidth}

module _ (ops : ApInt) (laws : ApIntLaws ops) where
  pub minus_add_lem :
      (w : ℕ) (a b c : Expr)
      → HasWidth w a
      → HasWidth w b
      → HasWidth w c
      → Implements ops
          (arithmetic sub (arithmetic sub a b) c)
          (arithmetic sub a (arithmetic add b c))
  minus_add_lem w a b c ta tb tc = (
    ((ta.0, tb.0, ta.1 ∙ sym tb.1), tc.0, ta.1 ∙ sym tc.1),
    refl,
    λ contents fit. cc (
      difference_value ops laws contents w a b ta.1,
      difference_value ops laws contents w (arithmetic sub a b) c ta.1,
      sum_value ops laws contents w b c tb.1,
      difference_value ops laws contents w a (arithmetic add b c) ta.1,
      Words.minus_add (2 ^ w) _ _ _ (value-Fits ops laws contents w a fit ta)
          (value-Fits ops laws contents w b fit tb) (value-Fits ops laws contents w c fit tc),
    ),
  )

  pub minus_add_swap_lem :
      (w : ℕ) (a b c : Expr)
      → HasWidth w a
      → HasWidth w b
      → HasWidth w c
      → Implements ops
          (arithmetic sub (arithmetic sub a b) c)
          (arithmetic sub a (arithmetic add c b))
  minus_add_swap_lem w a b c ta tb tc = (
    ((ta.0, tb.0, ta.1 ∙ sym tb.1), tc.0, ta.1 ∙ sym tc.1),
    refl,
    λ contents fit. cc (
      difference_value ops laws contents w a b ta.1,
      difference_value ops laws contents w (arithmetic sub a b) c ta.1,
      sum_value ops laws contents w c b tc.1,
      difference_value ops laws contents w a (arithmetic add c b) ta.1,
      Words.minus_add_swap (2 ^ w) _ _ _ (value-Fits ops laws contents w a fit ta)
          (value-Fits ops laws contents w b fit tb) (value-Fits ops laws contents w c fit tc),
    ),
  )

  pub minus_sub_lem :
      (w : ℕ) (a b c : Expr)
      → HasWidth w a
      → HasWidth w b
      → HasWidth w c
      → Implements ops
          (arithmetic add (arithmetic sub a b) c)
          (arithmetic sub a (arithmetic sub b c))
  minus_sub_lem w a b c ta tb tc = (
    ((ta.0, tb.0, ta.1 ∙ sym tb.1), tc.0, ta.1 ∙ sym tc.1),
    refl,
    λ contents fit. cc (
      difference_value ops laws contents w a b ta.1,
      sum_value ops laws contents w (arithmetic sub a b) c ta.1,
      difference_value ops laws contents w b c tb.1,
      difference_value ops laws contents w a (arithmetic sub b c) ta.1,
      Words.minus_sub (2 ^ w) _ _ _ (value-Fits ops laws contents w a fit ta)
          (value-Fits ops laws contents w b fit tb) (value-Fits ops laws contents w c fit tc),
    ),
  )

  pub minus_sub_right_lem :
      (w : ℕ) (a b c : Expr)
      → HasWidth w a
      → HasWidth w b
      → HasWidth w c
      → Implements ops
          (arithmetic sub (arithmetic add a c) b)
          (arithmetic sub a (arithmetic sub b c))
  minus_sub_right_lem w a b c ta tb tc = (
    ((ta.0, tc.0, ta.1 ∙ sym tc.1), tb.0, ta.1 ∙ sym tb.1),
    refl,
    λ contents fit. cc (
      sum_value ops laws contents w a c ta.1,
      difference_value ops laws contents w (arithmetic add a c) b ta.1,
      difference_value ops laws contents w b c tb.1,
      difference_value ops laws contents w a (arithmetic sub b c) ta.1,
      Words.minus_sub_right (2 ^ w) _ _ _ (value-Fits ops laws contents w a fit ta)
          (value-Fits ops laws contents w b fit tb) (value-Fits ops laws contents w c fit tc),
    ),
  )

  pub negate_plus_lem :
      (w : ℕ) (a b : Expr)
      → HasWidth w a
      → HasWidth w b
      → Implements ops (arithmetic add (arithmetic sub (constant w 0) b) a) (arithmetic sub a b)
  negate_plus_lem w a b ta tb = (
    (((zero-HasWidth ops laws w).0, tb.0, sym tb.1), ta.0, sym ta.1),
    sym ta.1,
    λ contents fit. cc (
      difference_value ops laws contents w (constant w 0) b refl,
      sum_value ops laws contents w (arithmetic sub (constant w 0) b) a refl,
      difference_value ops laws contents w a b ta.1,
      Words.negate_plus (2 ^ w) _ _ (value-Fits ops laws contents w a fit ta)
          (value-Fits ops laws contents w b fit tb),
    ),
  )

  pub sum_difference_right_lem :
      (w : ℕ) (a b c : Expr)
      → HasWidth w a
      → HasWidth w b
      → HasWidth w c
      → Implements ops
          (arithmetic add a (arithmetic sub b c))
          (arithmetic sub (arithmetic add a b) c)
  sum_difference_right_lem w a b c ta tb tc = (
    (ta.0, (tb.0, tc.0, tb.1 ∙ sym tc.1), ta.1 ∙ sym tb.1),
    refl,
    λ contents fit. cc (
      difference_value ops laws contents w b c tb.1,
      sum_value ops laws contents w a (arithmetic sub b c) ta.1,
      sum_value ops laws contents w a b ta.1,
      difference_value ops laws contents w (arithmetic add a b) c ta.1,
      Words.sum_difference_right (2 ^ w) _ _ _ (value-Fits ops laws contents w a fit ta)
          (value-Fits ops laws contents w b fit tb) (value-Fits ops laws contents w c fit tc),
    ),
  )

  pub negate_minus_left_lem :
      (w : ℕ) (a b c : Expr)
      → HasWidth w a
      → HasWidth w b
      → HasWidth w c
      → Implements ops
          (arithmetic add (arithmetic sub (constant w 0) b) (arithmetic sub a c))
          (arithmetic sub a (arithmetic add b c))
  negate_minus_left_lem w a b c ta tb tc = (
    (((zero-HasWidth ops laws w).0, tb.0, sym tb.1), (ta.0, tc.0, ta.1 ∙ sym tc.1), sym ta.1),
    sym ta.1,
    λ contents fit. cc (
      difference_value ops laws contents w (constant w 0) b refl,
      difference_value ops laws contents w a c ta.1,
      sum_value ops laws contents w (arithmetic sub (constant w 0) b) (arithmetic sub a c) refl,
      sum_value ops laws contents w b c tb.1,
      difference_value ops laws contents w a (arithmetic add b c) ta.1,
      Words.negate_minus_left (2 ^ w) _ _ _ (value-Fits ops laws contents w a fit ta)
          (value-Fits ops laws contents w b fit tb) (value-Fits ops laws contents w c fit tc),
    ),
  )

  pub negate_minus_right_lem :
      (w : ℕ) (a b c : Expr)
      → HasWidth w a
      → HasWidth w b
      → HasWidth w c
      → Implements ops
          (arithmetic add (arithmetic sub (constant w 0) c) (arithmetic sub a b))
          (arithmetic sub a (arithmetic add b c))
  negate_minus_right_lem w a b c ta tb tc = (
    (((zero-HasWidth ops laws w).0, tc.0, sym tc.1), (ta.0, tb.0, ta.1 ∙ sym tb.1), sym ta.1),
    sym ta.1,
    λ contents fit. cc (
      difference_value ops laws contents w (constant w 0) c refl,
      difference_value ops laws contents w a b ta.1,
      sum_value ops laws contents w (arithmetic sub (constant w 0) c) (arithmetic sub a b) refl,
      sum_value ops laws contents w b c tb.1,
      difference_value ops laws contents w a (arithmetic add b c) ta.1,
      Words.negate_minus_right (2 ^ w) _ _ _ (value-Fits ops laws contents w a fit ta)
          (value-Fits ops laws contents w b fit tb) (value-Fits ops laws contents w c fit tc),
    ),
  )

  pub negate_sub_lem :
      (w : ℕ) (a b c : Expr)
      → HasWidth w a
      → HasWidth w b
      → HasWidth w c
      → Implements ops
          (arithmetic add (arithmetic sub (constant w 0) b) (arithmetic add a c))
          (arithmetic sub a (arithmetic sub b c))
  negate_sub_lem w a b c ta tb tc = (
    (((zero-HasWidth ops laws w).0, tb.0, sym tb.1), (ta.0, tc.0, ta.1 ∙ sym tc.1), sym ta.1),
    sym ta.1,
    λ contents fit. cc (
      difference_value ops laws contents w (constant w 0) b refl,
      sum_value ops laws contents w a c ta.1,
      sum_value ops laws contents w (arithmetic sub (constant w 0) b) (arithmetic add a c) refl,
      difference_value ops laws contents w b c tb.1,
      difference_value ops laws contents w a (arithmetic sub b c) ta.1,
      Words.negate_sub (2 ^ w) _ _ _ (value-Fits ops laws contents w a fit ta)
          (value-Fits ops laws contents w b fit tb) (value-Fits ops laws contents w c fit tc),
    ),
  )

  pub sub_sub_lem :
      (w : ℕ) (a b c : Expr)
      → HasWidth w a
      → HasWidth w b
      → HasWidth w c
      → Implements ops
          (arithmetic add c (arithmetic sub a b))
          (arithmetic sub a (arithmetic sub b c))
  sub_sub_lem w a b c ta tb tc = (
    (tc.0, (ta.0, tb.0, ta.1 ∙ sym tb.1), tc.1 ∙ sym ta.1),
    tc.1 ∙ sym ta.1,
    λ contents fit. cc (
      difference_value ops laws contents w a b ta.1,
      sum_value ops laws contents w c (arithmetic sub a b) tc.1,
      difference_value ops laws contents w b c tb.1,
      difference_value ops laws contents w a (arithmetic sub b c) ta.1,
      Words.sub_sub (2 ^ w) _ _ _ (value-Fits ops laws contents w a fit ta)
          (value-Fits ops laws contents w b fit tb) (value-Fits ops laws contents w c fit tc),
    ),
  )
