-- ===== src/Search/MergingRuns.antt =====
-- klee/lib/Core/Searcher.cpp: MergingSearcher selects a state where there is one.
use cgs.Prelude.{
  ℕ, ◌+◌, ◌-◌, ◌<◌, ◌≤◌, ◌≡◌, ◌≢◌, refl, sym, inl, inr, Bool, true, false, Option, none, some, List,
  [], ◌∷◌, ◌++◌, ◌==◌, if◌then◌else◌, >>=-eq-some, >>=-ne-none, some-ne-none, Bool-cases,
  Option-cases, erase_found, is_nil, count, count-erase_first, mem-of_count, arith, ==_self,
}
use cgs.Search.Interface.{SearcherOps, SearcherLaws, SearcherRuns}
use cgs.Search.Merging.{
  Merging, Handler, continue_state, release_states, visit_groups, select_base, merging_select,
}

-- How often a state reached a close, over all handlers.
abbrev pub reached_count : ℕ → List Handler → ℕ
reached_count x [] = 0
reached_count x (h ∷ hs) = count x h.reached + reached_count x hs

module _ {S : Type 0} (base : SearcherOps S) (laws : SearcherLaws base)
    (runs : SearcherRuns base) where
  continue_state_lem :
      (p : ℕ) (m m' : Merging base)
      → continue_state base p m ≡ some m'
      → (x : ℕ)
      → (count x m'.paused_states ≡ count x m.paused_states - (if x == p then 1 else 0))
        × (base.holds x m.searcher ≤ base.holds x m'.searcher)
  unfolding continue_state
  continue_state_lem p m m' h x = elim (Option-cases (base.update none (p ∷ []) [] m.searcher)) [
    | inl e ↦ ground arith
    | inr (s, e) ↦ (
      ground (arith, count-erase_first x p m.paused_states),
      ground (arith, laws.holds-update none (p ∷ []) [] m.searcher s e x),
    )
  ]

  continue_state-ne-none :
      (p : ℕ) (m : Merging base) → 0 < count p m.paused_states → continue_state base p m ≢ none
  unfolding continue_state
  continue_state-ne-none p m h =
      >>=-ne-none (erase_found p m.paused_states) _
        (ground (arith, mem-of_count p m.paused_states h))
        λ left e.
          >>=-ne-none (base.update none (p ∷ []) [] m.searcher) _
            (runs.update-runs none (p ∷ []) [] m.searcher (λ x. omega arith)
              (λ c i. absurd (some-ne-none c (sym i))))
            λ s i. some-ne-none _

  release_states-ne-none :
      (ps : List ℕ) (m : Merging base)
      → ((x : ℕ) → count x ps ≤ count x m.paused_states)
      → release_states base ps m ≢ none
  unfolding release_states
  release_states-ne-none [] m h = some-ne-none m
  release_states-ne-none (p ∷ ps) m h =
      >>=-ne-none (continue_state base p m) _
        (continue_state-ne-none p m (ground (arith, h p, ==_self p)))
        λ m' e.
          release_states-ne-none ps m' (λ x. ground (arith, h x, (continue_state_lem p m m' e x).0))

  release_states_lem :
      (ps : List ℕ) (m m' : Merging base)
      → release_states base ps m ≡ some m'
      → (x : ℕ)
      → (count x m'.paused_states ≡ count x m.paused_states - count x ps)
        × (base.holds x m.searcher ≤ base.holds x m'.searcher)
  unfolding release_states
  release_states_lem [] m m' h x = (ground arith, ground arith)
  release_states_lem (p ∷ ps) m m' h x =
      let (n, e, k) = >>=-eq-some (continue_state base p m) _ h in
      let (fewer, more) = continue_state_lem p m n e x in
      let (fewest, most) = release_states_lem ps n m' k x in
      (omega (arith, fewer, fewest), omega (arith, more, most))

  visit_released :
      (done : List Handler) (g : Handler) (hs : List Handler) (m n : Merging base)
      (result : Option ℕ × Merging base)
      → is_nil g.reached ≡ false
      → g.prioritized ≡ none
      → release_states base g.reached m ≡ some n
      → visit_groups base (done ++ record g { reached = [] } ∷ []) hs n ≡ some result
      → visit_groups base done (g ∷ hs) m ≡ some result
  unfolding visit_groups
  visit_released done g hs m n result e k l run = rw (e, k, l, visit_groups) run

  visit_groups_lem :
      (done hs : List Handler) (m : Merging base)
      → ((x : ℕ) → reached_count x hs ≤ count x m.paused_states)
      → (result : Option ℕ × Merging base) × (visit_groups base done hs m ≡ some result)
        × ((x : ℕ) → base.holds x m.searcher ≤ base.holds x result.1.searcher)
  unfolding visit_groups
  visit_groups_lem done [] m h = ((none, record m { merge_groups = done }), refl, λ x. omega arith)
  visit_groups_lem done (g ∷ hs) m h = elim (Bool-cases (is_nil g.reached)) [
    | inl e ↦
        let (result, run, held) =
          visit_groups_lem (done ++ g ∷ []) hs m (λ x. omega (arith, h x)) in
        (result, rw (e, visit_groups) run, held)
    | inr e ↦ elim (Option-cases g.prioritized) [
      | inr (p, k) ↦ (
        (some p, record m { merge_groups = done ++ g ∷ hs }),
        ground (arith, e, k),
        λ x. omega arith,
      )
      | inl k ↦ elim (Option-cases (release_states base g.reached m)) [
        | inl stuck ↦ absurd (release_states-ne-none g.reached m (λ x. omega (arith, h x)) stuck)
        | inr (n, l) ↦
            let released = release_states_lem g.reached m n l in
            let (result, run, held) =
              visit_groups_lem (done ++ record g { reached = [] } ∷ []) hs n
                (λ x. omega (arith, h x, (released x).0)) in
            (
              result,
              visit_released done g hs m n result e k l run,
              λ x. omega (arith, held x, (released x).1),
            )
      ]
    ]
  ]

  select_base-ne-none :
      (w : ℕ) (chosen : Option ℕ) (m : Merging base)
      → 0 < base.holds w m.searcher
      → select_base base chosen m ≢ none
  unfolding select_base
  select_base-ne-none w (some p) m h = some-ne-none _
  select_base-ne-none w none m h =
      >>=-ne-none (base.select_state m.searcher) _ (runs.select-runs w m.searcher h)
        λ p e. some-ne-none _

  choice_lem :
      (incomplete : Bool) (m : Merging base)
      → ((x : ℕ) → reached_count x m.merge_groups ≤ count x m.paused_states)
      → (result : Option ℕ × Merging base) × ((if incomplete
            then visit_groups base [] m.merge_groups m
            else some (none, m))
          ≡ some result)
        × ((x : ℕ) → base.holds x m.searcher ≤ base.holds x result.1.searcher)
  choice_lem true m h = visit_groups_lem [] m.merge_groups m h
  choice_lem false m h = ((none, m), refl, λ x. omega arith)

  -- MergingSearcher::selectState runs through, over a searcher that keeps the laws and whose
  -- updates and selections run through, where the base holds a state and the states that reached a
  -- close are, counted over all handlers, paused.
  pub merging_select-ne-none :
      (w : ℕ) (incomplete : Bool) (m : Merging base)
      → 0 < base.holds w m.searcher
      → ((x : ℕ) → reached_count x m.merge_groups ≤ count x m.paused_states)
      → merging_select base incomplete m ≢ none
  unfolding merging_select
  merging_select-ne-none w incomplete m held paused = elim (Bool-cases (base.empty m.searcher)) [
    | inl e ↦ absurd (omega (arith, held, laws.empty-holds m.searcher e w))
    | inr e ↦
        let (result, run, more) = choice_lem incomplete m paused in
        rw (e, run, merging_select)
          (select_base-ne-none w result.0 result.1 (omega (arith, held, more w)))
  ]
