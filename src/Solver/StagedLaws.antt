-- ===== src/Solver/StagedLaws.antt =====
-- klee/lib/Solver/IncompleteSolver.cpp: a solver in two stages answers truly.
use cgs.Prelude.{◌≡◌, ◌⊎◌, inl, inr, refl, Bool, true, false, Option, some}
use cgs.Solver.Query.{Validity, is_true, is_false, is_unknown}
use cgs.Solver.Partial.{
  PartialValidity, must_true, must_false, may_true, may_false, true_or_false, no_answer,
  ConstrainedQuery, ExprOps, negated_query, incomplete_validity, staged_truth, staged_validity,
}
use cgs.Solver.Meaning.{
  ExprLaws, AllModels, SomeModel, Means, MeansValidity, all_negated, some_negated,
}
use cgs.Solver.CachingLaws.{SolverLaws}

module _ {C E : Type 0} (ops : ExprOps C E) {M : C → Type 0} (holds : E → (c : C) → M c → Bool)
    (laws : ExprLaws ops holds) where
  -- The first stage finds a proof, or a counterexample, or nothing.
  pub record PrimaryLaws (truth : ConstrainedQuery C E → PartialValidity) : Type 0 where
    pub answers :
        (q : ConstrainedQuery C E)
        → ((truth q ≡ must_true) × AllModels ops holds true q)
          ⊎ ((truth q ≡ may_false) × SomeModel ops holds false q)
          ⊎ (truth q ≡ no_answer)

  module _ (primary : ConstrainedQuery C E → PartialValidity) (first : PrimaryLaws primary) where
    -- The partial validity is one of what the two answers allow, and true.
    incomplete_validity_lem :
        (q : ConstrainedQuery C E)
        → (pv : PartialValidity) × (incomplete_validity ops primary q ≡ pv) × Means ops holds pv q
    unfolding incomplete_validity
    incomplete_validity_lem q = elim (first.answers q) [
      | inl (e, all) ↦ (must_true, rw (e, incomplete_validity) refl, all)
      | inr (inl (e, one)) ↦ elim (first.answers (negated_query ops q)) [
        | inl (f, all) ↦
            (must_false, rw (e, f, incomplete_validity) refl, all_negated ops holds laws true q all)
        | inr (inl (f, other)) ↦ (
          true_or_false,
          rw (e, f, incomplete_validity) refl,
          (some_negated ops holds laws false q other, one),
        )
        | inr (inr f) ↦ (may_false, rw (e, f, incomplete_validity) refl, one)
      ]
      | inr (inr e) ↦ elim (first.answers (negated_query ops q)) [
        | inl (f, all) ↦
            (must_false, rw (e, f, incomplete_validity) refl, all_negated ops holds laws true q all)
        | inr (inl (f, other)) ↦ (
          may_true,
          rw (e, f, incomplete_validity) refl,
          some_negated ops holds laws false q other,
        )
        | inr (inr f) ↦ (no_answer, rw (e, f, incomplete_validity) refl, tt)
      ]
    ]

    module _ (truth : ConstrainedQuery C E → Option Bool)
        (validity : ConstrainedQuery C E → Option Validity)
        (below : SolverLaws ops holds laws truth validity) where
      settle :
          (q : ConstrainedQuery C E) (pv : PartialValidity)
          → incomplete_validity ops primary q ≡ pv
          → Means ops holds pv q
          → (v : Validity) × (staged_validity ops primary
                (incomplete_validity ops primary)
                truth
                validity
                q
              ≡ some v)
            × MeansValidity ops holds v q
      unfolding staged_validity
      settle q must_true e h = (is_true, rw (e, staged_validity) refl, h)
      settle q must_false e h = (is_false, rw (e, staged_validity) refl, h)
      settle q true_or_false e h = (is_unknown, rw (e, staged_validity) refl, h)
      settle q no_answer e h =
          let (v, said, means) = below.validity-Means q in (v, rw (e, staged_validity) said, means)
      settle q may_true e h = elim (below.truth-Means q) [
        | inl (said, all) ↦ (is_true, rw (e, said, staged_validity) refl, all)
        | inr (said, one) ↦ (is_unknown, rw (e, said, staged_validity) refl, (h, one))
      ]
      settle q may_false e h = elim (below.truth-Means (negated_query ops q)) [
        | inl (said, all) ↦
            (is_false, rw (e, said, staged_validity) refl, all_negated ops holds laws true q all)
        | inr (said, one) ↦ (
          is_unknown,
          rw (e, said, staged_validity) refl,
          (some_negated ops holds laws false q one, h),
        )
      ]

      settle_truth :
          (q : ConstrainedQuery C E)
          → ((staged_truth ops primary (incomplete_validity ops primary) truth validity q
                ≡ some true)
              × AllModels ops holds true q)
            ⊎ ((staged_truth ops primary (incomplete_validity ops primary) truth validity q
                  ≡ some false)
                × SomeModel ops holds false q)
      unfolding staged_truth
      settle_truth q = elim (first.answers q) [
        | inl (e, all) ↦ inl (rw (e, staged_truth) refl, all)
        | inr (inl (e, one)) ↦ inr (rw (e, staged_truth) refl, one)
        | inr (inr e) ↦ elim (below.truth-Means q) [
          | inl (said, all) ↦ inl (rw (e, said, staged_truth) refl, all)
          | inr (said, one) ↦ inr (rw (e, said, staged_truth) refl, one)
        ]
      ]

      -- Over a second stage that answers truly, a first stage that gives proofs, counterexamples
      -- or nothing makes a staged solver that answers truly.
      pub staged-SolverLaws :
          SolverLaws ops holds laws
            (staged_truth ops primary (incomplete_validity ops primary) truth validity)
            (staged_validity ops primary (incomplete_validity ops primary) truth validity)
      staged-SolverLaws = record {
        truth-Means = settle_truth;
        validity-Means = λ q. let (pv, e, h) = incomplete_validity_lem q in settle q pv e h;
      }
