-- ===== src/Search/Runs.antt =====
-- klee/lib/Core/Searcher.cpp: updates that run through, over searchers whose updates do.
use cgs.Prelude.{
  ℕ, ◌+◌, ◌<◌, ◌≤◌, ◌≡◌, ◌≢◌, refl, sym, inl, inr, false, not, ◌&&◌, Option, none, some, List, [],
  ◌∷◌, ltb, >>=-ne-none, some-ne-none, Bool-cases, mem, count, count-not_mem, arith,
}
use cgs.Search.Interface.{SearcherOps, SearcherLaws, SearcherRuns}
use cgs.Search.Simple.{dfs}
use cgs.Search.SimpleLaws.{simple_update-ne-none, back-ne-none}
use cgs.Search.Deepening.{
  Deepening, filter_removed, pause_current, fill_paused, deepening_update, all_held,
}
use cgs.Search.DeepeningLaws.{count-told}

pub dfs-SearcherRuns : SearcherRuns dfs
dfs-SearcherRuns = record {
  update-runs = λ cur added removed s h k. (simple_update-ne-none cur added removed s h k).0;
  select-runs = back-ne-none;
}

module _ {S : Type 0} (base : SearcherOps S) (laws : SearcherLaws base)
    (runs : SearcherRuns base) where
  pause_current-ne-none :
      (elapsed : ℕ) (cur : Option ℕ) (removed : List ℕ) (m : Deepening base)
      → ((c : ℕ) → cur ≡ some c → mem c removed ≡ false → 0 < base.holds c m.searcher)
      → pause_current base elapsed cur removed m ≢ none
  unfolding pause_current
  pause_current-ne-none elapsed none removed m k = some-ne-none m
  pause_current-ne-none elapsed (some c) removed m k =
      elim (Bool-cases (not (mem c removed) && ltb m.time elapsed)) [
        | inr e ↦ rw (e, pause_current) (some-ne-none m)
        | inl e ↦
            let out : mem c removed ≡ false = ground (arith, e) in
            rw (e, pause_current)
              (>>=-ne-none (base.update none [] (c ∷ []) m.searcher) _
                (runs.update-runs none [] (c ∷ []) m.searcher (λ x. ground (arith, k c refl out))
                  (λ d h. absurd (some-ne-none d (sym h))))
                λ s i. some-ne-none _)
      ]

  fill_paused-ne-none : (m : Deepening base) → fill_paused base m ≢ none
  unfolding fill_paused
  fill_paused-ne-none m = elim (Bool-cases (base.empty m.searcher)) [
    | inr e ↦ rw (e, fill_paused) (some-ne-none m)
    | inl e ↦
        rw (e, fill_paused)
          (>>=-ne-none (base.update none m.paused_states [] m.searcher) _
            (runs.update-runs none m.paused_states [] m.searcher (λ x. omega arith)
              (λ d h. absurd (some-ne-none d (sym h))))
            λ s i. some-ne-none _)
  ]

  -- IterativeDeepeningTimeSearcher::update runs through, over a searcher that keeps the laws and
  -- whose updates run through, where each state is held at most once, an added one was not held,
  -- the current one is in the base, and no state is removed that is not held or added.
  pub deepening_update-ne-none :
      (elapsed : ℕ) (cur : Option ℕ) (added removed : List ℕ) (m : Deepening base)
      → ((x : ℕ) → all_held base x m + count x added ≤ 1)
      → ((c : ℕ) → cur ≡ some c → 0 < base.holds c m.searcher)
      → ((x : ℕ) → count x removed ≤ all_held base x m + count x added)
      → deepening_update base elapsed cur added removed m ≢ none
  unfolding deepening_update
  deepening_update-ne-none elapsed cur added removed m once here known =
      let paused = (filter_removed removed m.paused_states removed).0 in
      let alt = (filter_removed removed m.paused_states removed).1 in
      >>=-ne-none (base.update cur added alt m.searcher) _
        (runs.update-runs cur added alt m.searcher
          (λ x. ground (
            arith,
            once x,
            known x,
            count-told x removed m.paused_states removed,
            count-not_mem x removed,
          ))
          here)
        λ s e.
          >>=-ne-none
            (pause_current base elapsed cur removed
              (record m { searcher = s; paused_states = paused }))
            _
            (pause_current-ne-none elapsed cur removed
              (record m { searcher = s; paused_states = paused })
              (λ c i j. ground (
                arith,
                once c,
                here c i,
                laws.holds-update cur added alt m.searcher s e c,
                count-told c removed m.paused_states removed,
                count-not_mem c removed j,
              )))
            λ n l. fill_paused-ne-none n
