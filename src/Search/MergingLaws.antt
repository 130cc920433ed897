-- ===== src/Search/MergingLaws.antt =====
-- klee/lib/Core/Searcher.cpp: what MergingSearcher relies on and keeps.
use cgs.Prelude.{
  ℕ, ◌+◌, ◌-◌, ◌<◌, ◌≡◌, ◌∙◌, inl, inr, Bool, true, false, not, Option, none, some, List, [], ◌∷◌,
  ◌++◌, if◌then◌else◌, assert, ◌≤◌, >>=-eq-some, Bool-cases, Option-cases, mem, is_nil, count,
  count-push_back, count-erase_first, count-mem, arith,
}
use cgs.Search.Interface.{SearcherOps, SearcherLaws}
use cgs.Search.Merging.{
  Merging, Handler, pause_state, continue_state, release_states, visit_groups, select_base,
  merging_select, merging_update, kept,
}

module _ {S : Type 0} (base : SearcherOps S) (laws : SearcherLaws base) (x : ℕ) where
  kept-pause_state :
      (p : ℕ) (m m' : Merging base)
      → 0 < base.holds p m.searcher
      → pause_state base p m ≡ some m'
      → kept base x m' ≡ kept base x m
  unfolding pause_state
  kept-pause_state p m m' held h = elim (Option-cases (base.update none [] (p ∷ []) m.searcher)) [
    | inl e ↦ ground arith
    | inr (s, e) ↦ ground (
      arith,
      laws.holds-update none [] (p ∷ []) m.searcher s e x,
      count-push_back x p m.paused_states,
    )
  ]

  kept-continue_state :
      (p : ℕ) (m m' : Merging base)
      → continue_state base p m ≡ some m'
      → kept base x m' ≡ kept base x m
  unfolding continue_state
  kept-continue_state p m m' h = elim (Option-cases (base.update none (p ∷ []) [] m.searcher)) [
    | inl e ↦ ground arith
    | inr (s, e) ↦ ground (
      arith,
      laws.holds-update none (p ∷ []) [] m.searcher s e x,
      count-erase_first x p m.paused_states,
      count-mem p m.paused_states,
    )
  ]

  kept-release_states :
      (ps : List ℕ) (m m' : Merging base)
      → release_states base ps m ≡ some m'
      → kept base x m' ≡ kept base x m
  unfolding release_states
  kept-release_states [] m m' h = ground arith
  kept-release_states (p ∷ ps) m m' h =
      let (n, e, k) = >>=-eq-some (continue_state base p m) _ h in
      kept-release_states ps n m' k ∙ kept-continue_state p m n e

  kept-visit_groups :
      (done hs : List Handler) (m m' : Merging base) (chosen : Option ℕ)
      → visit_groups base done hs m ≡ some (chosen, m')
      → kept base x m' ≡ kept base x m
  unfolding visit_groups
  kept-visit_groups done [] m m' chosen h = ground arith
  kept-visit_groups done (g ∷ hs) m m' chosen h = elim (Bool-cases (is_nil g.reached)) [
    | inl e ↦ kept-visit_groups (done ++ g ∷ []) hs m m' chosen (rw (e, visit_groups) at h)
    | inr e ↦ elim (Option-cases g.prioritized) [
      | inr (p, k) ↦ ground arith
      | inl k ↦
          let (n, l, r) =
            >>=-eq-some (release_states base g.reached m) _ (rw (e, k, visit_groups) at h) in
          kept-visit_groups (done ++ record g { reached = [] } ∷ []) hs n m' chosen r
          ∙ kept-release_states g.reached m n l
    ]
  ]

  same-select_base :
      (chosen : Option ℕ) (m m' : Merging base) (p : ℕ)
      → select_base base chosen m ≡ some (p, m')
      → m' ≡ m
  unfolding select_base
  same-select_base (some q) m m' p h = ground arith
  same-select_base none m m' p h = elim (Option-cases (base.select_state m.searcher)) [
    | inl e ↦ ground arith
    | inr (q, e) ↦ ground arith
  ]

  kept-choice :
      (incomplete : Bool) (m n : Merging base) (chosen : Option ℕ)
      → (if incomplete then visit_groups base [] m.merge_groups m else some (none, m))
        ≡ some (chosen, n)
      → kept base x n ≡ kept base x m
  kept-choice true m n chosen h = kept-visit_groups [] m.merge_groups m n chosen h
  kept-choice false m n chosen h = ground arith

  -- If MergingSearcher::selectState runs through over a searcher that keeps the laws, then the
  -- base and the pause together hold each state as often as before, also where paused states are
  -- released.
  pub kept-merging_select :
      (incomplete : Bool) (m m' : Merging base) (p : ℕ)
      → merging_select base incomplete m ≡ some (p, m')
      → kept base x m' ≡ kept base x m
  unfolding merging_select
  kept-merging_select incomplete m m' p h =
      let (_, _, k) = >>=-eq-some (assert (not (base.empty m.searcher))) _ h in
      let ((chosen, n), e, l) =
        >>=-eq-some (if incomplete then visit_groups base [] m.merge_groups m else some (none, m)) _
          k in
      rw (same-select_base chosen n m' p l) (kept-choice incomplete m n chosen e)

  -- If MergingSearcher::update runs through over a searcher that keeps the laws and nothing is
  -- removed that the base does not hold, then the base and the pause together change by what is
  -- added and removed, and not at all where the current state is paused.
  pub kept-merging_update :
      (cur : Option ℕ) (added removed : List ℕ) (m m' : Merging base)
      → count x removed ≤ base.holds x m.searcher + count x added
      → merging_update base cur added removed m ≡ some m'
      → kept base x m' ≡ (
          if elim cur [ none ↦ false | some c ↦ mem c m.paused_states ]
          then kept base x m
          else kept base x m + count x added - count x removed)
  unfolding merging_update
  kept-merging_update cur added removed m m' held h =
      elim (Option-cases (base.update cur added removed m.searcher)) [
        | inl e ↦ ground arith
        | inr (s, e) ↦ ground (arith, laws.holds-update cur added removed m.searcher s e x)
      ]
