-- ===== src/Search/Merging.antt =====
-- klee/lib/Core/Searcher.cpp: MergingSearcher over any searcher, with the part of MergeHandler.cpp
-- that it calls. `prioritized` is what getPrioritizeState finds, which compares floating-point means.
use cgs.Prelude.{
  ℕ, ◌+◌, Bool, true, false, not, Option, none, some, List, [], ◌∷◌, ◌++◌, if◌then◌else◌, ◌>>=◌,
  ◌>>◌, assert, mem, erase_found, push_back, is_nil, count,
}
use cgs.Search.Interface.{SearcherOps}

-- The states that reached a klee_close_merge of one handler, and the one to go on with. The code has
-- them by the instruction that they wait at, with at least one at each; here they follow each other.
pub record Handler : Type 0 where
  pub reached : List ℕ
  pub prioritized : Option ℕ

module _ {S : Type 0} (base : SearcherOps S) where
  pub record Merging : Type 0 where
    pub searcher : S
    pub paused_states : List ℕ
    pub merge_groups : List Handler

  unfoldable pub pause_state : ℕ → Merging → Option Merging
  pause_state p m = do
    assert (not (mem p m.paused_states))
    s ← base.update none [] (p ∷ []) m.searcher
    some (record m { searcher = s; paused_states = push_back m.paused_states p })

  unfoldable pub continue_state : ℕ → Merging → Option Merging
  continue_state p m = do
    left ← erase_found p m.paused_states
    s ← base.update none (p ∷ []) [] m.searcher
    some (record m { searcher = s; paused_states = left })

  -- MergeHandler::releaseStates: each state that reached the close goes on.
  unfoldable pub release_states : List ℕ → Merging → Option Merging
  release_states [] m = some m
  release_states (p ∷ ps) m = do m' ← continue_state p m; release_states ps m'

  -- The loop over the handlers, of which `done` were gone through: a state to prioritize ends it.
  unfoldable pub visit_groups : List Handler → List Handler → Merging → Option (Option ℕ × Merging)
  visit_groups done [] m = some (none, record m { merge_groups = done })
  visit_groups done (h ∷ hs) m = elim (is_nil h.reached) [
    | true ↦ visit_groups (done ++ h ∷ []) hs m
    | false ↦ elim h.prioritized [
      | some p ↦ some (some p, record m { merge_groups = done ++ h ∷ hs })
      | none ↦ do
        m' ← release_states h.reached m
        visit_groups (done ++ record h { reached = [] } ∷ []) hs m'
    ]
  ]

  -- With no state to prioritize the base selects one.
  unfoldable pub select_base : Option ℕ → Merging → Option (ℕ × Merging)
  select_base (some p) m = some (p, m)
  select_base none m = do p ← base.select_state m.searcher; some (p, m)

  unfoldable pub merging_select : Bool → Merging → Option (ℕ × Merging)
  merging_select incomplete m = do
    assert (not (base.empty m.searcher))
    (chosen, m') ← if incomplete then visit_groups [] m.merge_groups m else some (none, m)
    select_base chosen m'

  -- The base is not told of an update whose current state is paused.
  unfoldable pub merging_update : Option ℕ → List ℕ → List ℕ → Merging → Option Merging
  merging_update cur added removed m =
      let paused : Bool = elim cur [ none ↦ false | some c ↦ mem c m.paused_states ] in
      if paused
      then some m
      else (do s ← base.update cur added removed m.searcher; some (record m { searcher = s }))

  unfoldable pub merging_empty : Merging → Bool
  merging_empty m = base.empty m.searcher

  -- The states that the searcher and the pause hold together.
  abbrev pub kept : ℕ → Merging → ℕ
  kept x m = base.holds x m.searcher + count x m.paused_states
