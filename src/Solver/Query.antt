-- ===== src/Solver/Query.antt =====
-- klee/lib/Solver/Solver.cpp and SolverImpl.cpp: questions about an expression, and the ways to ask.
-- A question stands for the expression that is built for it; its value depends on the expression's.
use cgs.Prelude.{ℕ, ◌/◌, ◌^◌, Bool, not, Option, none, some, ◌==◌, leb, if◌then◌else◌, ◌>>=◌}

-- The expression itself, of one bit; EqExpr(e, 0); EqExpr(LShrExpr(e, k), 0); UleExpr(e, k).
pub data Query : Type 0 where
  constant : Bool → Query
  itself : Query
  is_zero : Query
  shifted_is_zero : ℕ → Query
  at_most : ℕ → Query
  negated : Query → Query

abbrev pub eval : Query → ℕ → Bool
eval (constant b) v = b
eval itself v = v == 1
eval is_zero v = v == 0
eval (shifted_is_zero k) v = v / 2 ^ k == 0
eval (at_most k) v = leb v k
eval (negated q) v = not (eval q v)

-- dyn_cast<ConstantExpr>
abbrev pub as_constant : Query → Option Bool
as_constant (constant b) = some b
as_constant q = none

-- Query::negateExpr, which gives a constant for a constant.
unfoldable pub negate_expr : Query → Query
negate_expr (constant b) = constant (not b)
negate_expr q = negated q

pub data Validity : Type 0 where
  is_true : Validity
  is_false : Validity
  is_unknown : Validity

-- `compute_truth` is the implementation's; `none` is a failure.
module _ (compute_truth : Query → Option Bool) where
  -- The default in SolverImpl.
  unfoldable pub compute_validity : Query → Option Validity
  compute_validity q = do
    holds ← compute_truth q
    if holds then some is_true else (do
      fails ← compute_truth (negate_expr q)
      some (if fails then is_false else is_unknown))

  unfoldable pub evaluate : Query → Option Validity
  evaluate q = elim (as_constant q) [
    | some b ↦ some (if b then is_true else is_false)
    | none ↦ compute_validity q
  ]

  unfoldable pub must_be_true : Query → Option Bool
  must_be_true q = elim (as_constant q) [ some b ↦ some b | none ↦ compute_truth q ]

  unfoldable pub must_be_false : Query → Option Bool
  must_be_false q = must_be_true (negate_expr q)

  unfoldable pub may_be_true : Query → Option Bool
  may_be_true q = do res ← must_be_false q; some (not res)

  unfoldable pub may_be_false : Query → Option Bool
  may_be_false q = do res ← must_be_true q; some (not res)
