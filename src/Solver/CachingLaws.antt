-- ===== src/Solver/CachingLaws.antt =====
-- klee/lib/Solver/CachingSolver.cpp: the answers from the cache are those of the solver below it.
use cgs.Prelude.{◌≡◌, ◌⊎◌, inl, inr, refl, Bool, true, false, Option, none, some, if◌then◌else◌}
use cgs.Solver.Query.{Validity, is_true, is_false, is_unknown}
use cgs.Solver.Partial.{
  PartialValidity, must_true, must_false, may_true, may_false, true_or_false, no_answer,
  ConstrainedQuery, ExprOps, is_must_true, negated_query,
}
use cgs.Solver.Caching.{
  CacheMap, partial_of, is_may_true, settle_hit, ask_validity, caching_validity, ask_truth,
  caching_truth,
}
use cgs.Solver.Meaning.{
  ExprLaws, AllModels, SomeModel, MeansValidity, MeansTruth, all_negated, some_negated,
}
use cgs.Solver.CacheEntries.{Kept, CacheIsSound, lookup_lem, insert_lem}

module _ {C E : Type 0} (ops : ExprOps C E) {M : C → Type 0} (holds : E → (c : C) → M c → Bool)
    (laws : ExprLaws ops holds) where
  module _ (truth : ConstrainedQuery C E → Option Bool)
      (validity : ConstrainedQuery C E → Option Validity) where
    -- The solver below answers, and what it answers is so.
    pub record SolverLaws : Type 0 where
      pub truth-Means :
          (q : ConstrainedQuery C E)
          → ((truth q ≡ some true) × AllModels ops holds true q)
            ⊎ ((truth q ≡ some false) × SomeModel ops holds false q)
      pub validity-Means :
          (q : ConstrainedQuery C E)
          → (v : Validity) × (validity q ≡ some v) × MeansValidity ops holds v q

    module _ (below : SolverLaws) where
      partial_of-Means :
          (v : Validity) (q : ConstrainedQuery C E)
          → MeansValidity ops holds v q
          → Kept ops holds laws (q, partial_of v)
      partial_of-Means is_true q h = (h, refl)
      partial_of-Means is_false q h = (h, refl)
      partial_of-Means is_unknown q h = (h, refl)

      -- What caching_validity is to give.
      abbrev pub ValidityGiven : ConstrainedQuery C E → Option (Validity × CacheMap ops) → Type 0
      ValidityGiven q result =
          (v : Validity) × (cache' : CacheMap ops) × (result ≡ some (v, cache'))
          × MeansValidity ops holds v q
          × CacheIsSound ops holds laws cache'

      ask_validity_lem :
          (q : ConstrainedQuery C E) (cache : CacheMap ops)
          → CacheIsSound ops holds laws cache
          → ValidityGiven q (ask_validity ops truth validity q cache)
      unfolding ask_validity
      ask_validity_lem q cache s =
          let (v, said, means) = below.validity-Means q in
          let (cache', run, s') =
            insert_lem ops holds laws q (partial_of v) cache s (partial_of-Means v q means) in
          (v, cache', rw (said, run) refl, means, s')

      settle_hit_lem :
          (pv : PartialValidity) (q : ConstrainedQuery C E) (cache : CacheMap ops)
          → CacheIsSound ops holds laws cache
          → Kept ops holds laws (q, pv)
          → ValidityGiven q (settle_hit ops truth validity pv q cache)
      unfolding settle_hit
      settle_hit_lem must_true q cache s (means, _) = (is_true, cache, refl, means, s)
      settle_hit_lem must_false q cache s (means, _) = (is_false, cache, refl, means, s)
      settle_hit_lem true_or_false q cache s (means, _) = (is_unknown, cache, refl, means, s)
      settle_hit_lem no_answer q cache s (_, answered) = cc
      settle_hit_lem may_true q cache s (means, _) = elim (below.truth-Means q) [
        | inl (said, all) ↦
            let (cache', run, s') = insert_lem ops holds laws q must_true cache s (all, refl) in
            (is_true, cache', rw (said, run) refl, all, s')
        | inr (said, one) ↦
            let (cache', run, s') =
              insert_lem ops holds laws q true_or_false cache s ((means, one), refl) in
            (is_unknown, cache', rw (said, run) refl, (means, one), s')
      ]
      settle_hit_lem may_false q cache s (means, _) =
          elim (below.truth-Means (negated_query ops q)) [
            | inl (said, all) ↦
                let all_false = all_negated ops holds laws true q all in
                let (cache', run, s') =
                  insert_lem ops holds laws q must_false cache s (all_false, refl) in
                (is_false, cache', rw (said, run) refl, all_false, s')
            | inr (said, one) ↦
                let one_true = some_negated ops holds laws false q one in
                let (cache', run, s') =
                  insert_lem ops holds laws q true_or_false cache s ((one_true, means), refl) in
                (is_unknown, cache', rw (said, run) refl, (one_true, means), s')
          ]

      -- Over a solver that answers truly, and with a cache whose entries are true,
      -- CachingSolver::computeValidity succeeds, answers truly, and leaves such a cache.
      pub caching_validity_lem :
          (q : ConstrainedQuery C E) (cache : CacheMap ops)
          → CacheIsSound ops holds laws cache
          → ValidityGiven q (caching_validity ops truth validity q cache)
      unfolding caching_validity
      caching_validity_lem q cache s = elim (lookup_lem ops holds laws q cache s) [
        | inl e ↦
            let (v, cache', run, means, s') = ask_validity_lem q cache s in
            (v, cache', rw (e, caching_validity) run, means, s')
        | inr (pv, e, k) ↦
            let (v, cache', run, means, s') = settle_hit_lem pv q cache s k in
            (v, cache', rw (e, caching_validity) run, means, s')
      ]

      abbrev pub TruthGiven : ConstrainedQuery C E → Option (Bool × CacheMap ops) → Type 0
      TruthGiven q result =
          (b : Bool) × (cache' : CacheMap ops) × (result ≡ some (b, cache'))
          × MeansTruth ops holds b q
          × CacheIsSound ops holds laws cache'

      ask_truth_lem :
          (found : Option PartialValidity) (q : ConstrainedQuery C E) (cache : CacheMap ops)
          → CacheIsSound ops holds laws cache
          → ((found ≡ none) ⊎ ((found ≡ some may_true) × SomeModel ops holds true q))
          → TruthGiven q (ask_truth ops truth validity found q cache)
      unfolding ask_truth
      ask_truth_lem found q cache s known = elim (below.truth-Means q) [
        | inl (said, all) ↦
            let (cache', run, s') = insert_lem ops holds laws q must_true cache s (all, refl) in
            (true, cache', rw (said, run) refl, all, s')
        | inr (said, one) ↦ elim known [
          | inl e ↦
              let (cache', run, s') = insert_lem ops holds laws q may_false cache s (one, refl) in
              (false, cache', rw (said, e, run) refl, one, s')
          | inr (e, other) ↦
              let (cache', run, s') =
                insert_lem ops holds laws q true_or_false cache s ((other, one), refl) in
              (false, cache', rw (said, e, run) refl, one, s')
        ]
      ]

      hit_truth :
          (pv : PartialValidity) (q : ConstrainedQuery C E) (cache : CacheMap ops)
          → M q.constraints
          → CacheIsSound ops holds laws cache
          → Kept ops holds laws (q, pv)
          → TruthGiven q (
              if is_may_true pv
              then ask_truth ops truth validity (some pv) q cache
              else some (is_must_true pv, cache))
      hit_truth must_true q cache m s (means, _) = (true, cache, refl, means, s)
      hit_truth must_false q cache m s (means, _) = (false, cache, refl, (m, means m), s)
      hit_truth may_true q cache m s (means, _) =
          ask_truth_lem (some may_true) q cache s (inr (refl, means))
      hit_truth may_false q cache m s (means, _) = (false, cache, refl, means, s)
      hit_truth true_or_false q cache m s (means, _) = (false, cache, refl, means.1, s)
      hit_truth no_answer q cache m s (_, answered) = cc

      -- Over a solver that answers truly, with a cache whose entries are true and an assignment
      -- that satisfies the constraints, CachingSolver::computeTruth succeeds, answers truly, and
      -- leaves such a cache.
      pub caching_truth_lem :
          (q : ConstrainedQuery C E) (cache : CacheMap ops)
          → M q.constraints
          → CacheIsSound ops holds laws cache
          → TruthGiven q (caching_truth ops truth validity q cache)
      unfolding caching_truth
      caching_truth_lem q cache m s = elim (lookup_lem ops holds laws q cache s) [
        | inl e ↦
            let (b, cache', run, means, s') = ask_truth_lem none q cache s (inl refl) in
            (b, cache', rw (e, caching_truth) run, means, s')
        | inr (pv, e, k) ↦
            let (b, cache', run, means, s') = hit_truth pv q cache m s k in
            (b, cache', rw (e, caching_truth) run, means, s')
      ]
