-- ===== src/Solver/Truth.antt =====
-- klee/lib/Solver/Solver.cpp: what the answers of Solver mean, over the assignments that satisfy the
-- constraints. `value` is the value of the expression under an assignment.
use cgs.Prelude.{
  ℕ, ◌≡◌, ◌⊎◌, inl, inr, refl, Bool, true, false, not, Option, none, some, Option-cases, Bool-cases,
  arith,
}
use cgs.Solver.Query.{
  Query, constant, itself, is_zero, shifted_is_zero, at_most, negated, eval, as_constant,
  negate_expr, is_true, is_false, is_unknown, compute_validity, evaluate, must_be_true,
  must_be_false, may_be_true, may_be_false,
}

eval-negate_expr : (q : Query) (v : ℕ) → eval (negate_expr q) v ≡ not (eval q v)
unfolding negate_expr
eval-negate_expr (constant b) v = refl
eval-negate_expr itself v = refl
eval-negate_expr is_zero v = refl
eval-negate_expr (shifted_is_zero k) v = refl
eval-negate_expr (at_most k) v = refl
eval-negate_expr (negated q) v = refl

as_constant-negate_expr : (q : Query) → as_constant q ≡ none → as_constant (negate_expr q) ≡ none
unfolding negate_expr
as_constant-negate_expr (constant b) h = cc
as_constant-negate_expr itself h = refl
as_constant-negate_expr is_zero h = refl
as_constant-negate_expr (shifted_is_zero k) h = refl
as_constant-negate_expr (at_most k) h = refl
as_constant-negate_expr (negated q) h = refl

as_constant-eval : (q : Query) (b : Bool) (v : ℕ) → as_constant q ≡ some b → eval q v ≡ b
as_constant-eval (constant c) b v h = cc
as_constant-eval itself b v h = cc
as_constant-eval is_zero b v h = cc
as_constant-eval (shifted_is_zero k) b v h = cc
as_constant-eval (at_most k) b v h = cc
as_constant-eval (negated q) b v h = cc

module _ {M : Type 0} (value : M → ℕ) where
  abbrev pub Always : Bool → Query → Type 0
  Always b q = (m : M) → eval q (value m) ≡ b

  abbrev pub Sometimes : Bool → Query → Type 0
  Sometimes b q = (m : M) × (eval q (value m) ≡ b)

  -- What the solvers below document: they answer, and the answer is yes exactly if the question holds
  -- under every assignment.
  pub record IsSound (compute_truth : Query → Option Bool) : Type 0 where
    pub answers :
        (q : Query)
        → as_constant q ≡ none
        → ((compute_truth q ≡ some true) × Always true q)
          ⊎ ((compute_truth q ≡ some false) × Sometimes false q)

  module _ (compute_truth : Query → Option Bool) (sound : IsSound compute_truth)
      (some_model : M) where
    pub must_be_true_lem :
        (q : Query)
        → ((must_be_true compute_truth q ≡ some true) × Always true q)
          ⊎ ((must_be_true compute_truth q ≡ some false) × Sometimes false q)
    unfolding must_be_true
    must_be_true_lem q = elim (Option-cases (as_constant q)) [
      | inl e ↦ elim (sound.answers q e) [
        | inl (said, all) ↦ inl (ground arith, all)
        | inr (said, one) ↦ inr (ground arith, one)
      ]
      | inr (true, e) ↦ inl (ground arith, λ m. as_constant-eval q true (value m) e)
      | inr (false, e) ↦
          inr (ground arith, (some_model, as_constant-eval q false (value some_model) e))
    ]

    flip : (q : Query) (b : Bool) (v : ℕ) → eval (negate_expr q) v ≡ b → eval q v ≡ not b
    flip q b v h = elim (Bool-cases (eval q v)) [
      | inl e ↦ ground (arith, eval-negate_expr q v)
      | inr e ↦ ground (arith, eval-negate_expr q v)
    ]

    must_be_false_lem :
        (q : Query)
        → ((must_be_false compute_truth q ≡ some true) × Always false q)
          ⊎ ((must_be_false compute_truth q ≡ some false) × Sometimes true q)
    unfolding must_be_false
    must_be_false_lem q = elim (must_be_true_lem (negate_expr q)) [
      | inl (said, all) ↦ inl (said, λ m. flip q true (value m) (all m))
      | inr (said, (m, one)) ↦ inr (said, (m, flip q false (value m) one))
    ]

    pub may_be_true_lem :
        (q : Query)
        → ((may_be_true compute_truth q ≡ some true) × Sometimes true q)
          ⊎ ((may_be_true compute_truth q ≡ some false) × Always false q)
    unfolding may_be_true
    may_be_true_lem q = elim (must_be_false_lem q) [
      | inl (said, all) ↦ inr (ground arith, all)
      | inr (said, one) ↦ inl (ground arith, one)
    ]

    may_be_false_lem :
        (q : Query)
        → ((may_be_false compute_truth q ≡ some true) × Sometimes false q)
          ⊎ ((may_be_false compute_truth q ≡ some false) × Always true q)
    unfolding may_be_false
    may_be_false_lem q = elim (must_be_true_lem q) [
      | inl (said, all) ↦ inr (ground arith, all)
      | inr (said, one) ↦ inl (ground arith, one)
    ]

    pub evaluate_lem :
        (q : Query)
        → ((evaluate compute_truth q ≡ some is_true) × Always true q)
          ⊎ ((evaluate compute_truth q ≡ some is_false) × Always false q)
          ⊎ ((evaluate compute_truth q ≡ some is_unknown) × Sometimes true q × Sometimes false q)
    unfolding evaluate compute_validity
    evaluate_lem q = elim (Option-cases (as_constant q)) [
      | inr (true, e) ↦ inl (ground arith, λ m. as_constant-eval q true (value m) e)
      | inr (false, e) ↦ inr (inl (ground arith, λ m. as_constant-eval q false (value m) e))
      | inl e ↦ elim (sound.answers q e) [
        | inl (said, all) ↦ inl (ground arith, all)
        | inr (said, one) ↦ elim (sound.answers (negate_expr q) (as_constant-negate_expr q e)) [
          | inl (then_said, all) ↦ inr (inl (ground arith, λ m. flip q true (value m) (all m)))
          | inr (then_said, (m, other)) ↦
              inr (inr (ground arith, (m, flip q false (value m) other), one))
        ]
      ]
    ]

    -- With an assignment that satisfies the constraints, over a sound implementation, evaluate,
    -- mustBeTrue, mustBeFalse, mayBeTrue and mayBeFalse succeed, and tell whether the question
    -- always, never or only sometimes holds.
    pub queries_lem :
        (q : Query)
        → (((evaluate compute_truth q ≡ some is_true) × Always true q)
            ⊎ ((evaluate compute_truth q ≡ some is_false) × Always false q)
            ⊎ ((evaluate compute_truth q ≡ some is_unknown) × Sometimes true q × Sometimes false q))
          × (((must_be_true compute_truth q ≡ some true) × Always true q)
              ⊎ ((must_be_true compute_truth q ≡ some false) × Sometimes false q))
          × (((must_be_false compute_truth q ≡ some true) × Always false q)
              ⊎ ((must_be_false compute_truth q ≡ some false) × Sometimes true q))
          × (((may_be_true compute_truth q ≡ some true) × Sometimes true q)
              ⊎ ((may_be_true compute_truth q ≡ some false) × Always false q))
          × (((may_be_false compute_truth q ≡ some true) × Sometimes false q)
              ⊎ ((may_be_false compute_truth q ≡ some false) × Always true q))
    queries_lem q = (
      evaluate_lem q,
      must_be_true_lem q,
      must_be_false_lem q,
      may_be_true_lem q,
      may_be_false_lem q,
    )
