-- ===== src/Solver/Partial.antt =====
-- klee/lib/Solver/IncompleteSolver.cpp: partial answers, and a solver in two stages. A query is a set of
-- constraints with an expression, and what is done with expressions comes from klee/lib/Expr.
use cgs.Prelude.{Bool, true, false, not, Option, none, some, if◌then◌else◌, ◌>>=◌}
use cgs.Solver.Query.{Validity, is_true, is_false, is_unknown}

pub data PartialValidity : Type 0 where
  must_true must_false may_true may_false true_or_false no_answer : PartialValidity

pub record ConstrainedQuery (C E : Type 0) : Type 0 where
  pub constraints : C
  pub expr : E

-- Expr::createIsZero, `compare(..) < 0`, and CacheEntry::operator==.
pub record ExprOps (C E : Type 0) : Type 0 where
  pub create_is_zero : E → E
  pub is_less : E → E → Bool
  pub same_query : ConstrainedQuery C E → ConstrainedQuery C E → Bool

-- A failed assertion for None.
unfoldable pub negate_partial_validity : PartialValidity → Option PartialValidity
negate_partial_validity must_true = some must_false
negate_partial_validity must_false = some must_true
negate_partial_validity may_true = some may_false
negate_partial_validity may_false = some may_true
negate_partial_validity true_or_false = some true_or_false
negate_partial_validity no_answer = none

abbrev pub is_must_true : PartialValidity → Bool
is_must_true must_true = true
is_must_true pv = false

abbrev pub is_no_answer : PartialValidity → Bool
is_no_answer no_answer = true
is_no_answer pv = false

module _ {C E : Type 0} (ops : ExprOps C E) where
  abbrev pub negated_query : ConstrainedQuery C E → ConstrainedQuery C E
  negated_query q = record q { expr = ops.create_is_zero q.expr }

  -- IncompleteSolver::computeValidity from the solver's computeTruth.
  unfoldable pub incomplete_validity :
      (ConstrainedQuery C E → PartialValidity) → ConstrainedQuery C E → PartialValidity
  incomplete_validity truth q =
      let true_result = truth q in
      let false_result = truth (negated_query q) in
      if is_must_true true_result
      then must_true
      else if is_must_true false_result
      then must_false
      else if not (is_no_answer true_result)
      then (if not (is_no_answer false_result) then true_or_false else may_false)
      else (if not (is_no_answer false_result) then may_true else no_answer)

  module _ (primary_truth : ConstrainedQuery C E → PartialValidity)
      (primary_validity : ConstrainedQuery C E → PartialValidity)
      (secondary_truth : ConstrainedQuery C E → Option Bool)
      (secondary_validity : ConstrainedQuery C E → Option Validity) where
    unfoldable pub staged_truth : ConstrainedQuery C E → Option Bool
    staged_truth q =
        if not (is_no_answer (primary_truth q))
        then some (is_must_true (primary_truth q))
        else secondary_truth q

    unfoldable pub staged_validity : ConstrainedQuery C E → Option Validity
    staged_validity q = elim (primary_validity q) [
      | must_true ↦ some is_true
      | must_false ↦ some is_false
      | true_or_false ↦ some is_unknown
      | may_true ↦ (do tmp ← secondary_truth q; some (if tmp then is_true else is_unknown))
      | may_false ↦ (do
        tmp ← secondary_truth (negated_query q)
        some (if tmp then is_false else is_unknown))
      | no_answer ↦ secondary_validity q
    ]
