-- ===== src/Search/Deepening.antt =====
-- klee/lib/Core/Searcher.cpp: IterativeDeepeningTimeSearcher over any searcher. A state is the number
-- by which the set of paused states is ordered, and times are in microseconds.
use cgs.Prelude.{
  ℕ, ◌+◌, ◌*◌, Bool, true, false, not, ◌&&◌, Option, none, some, List, [], ◌∷◌, ◌==◌, ltb,
  if◌then◌else◌, ◌>>=◌, mem, erase_first, is_nil, count,
}
use cgs.Search.Interface.{SearcherOps}

-- std::set::insert
unfoldable pub insert_paused : ℕ → List ℕ → List ℕ
insert_paused p [] = p ∷ []
insert_paused p (q ∷ qs) =
    if p == q then q ∷ qs else if ltb p q then p ∷ q ∷ qs else q ∷ insert_paused p qs

-- std::remove and erase
unfoldable pub remove_every : ℕ → List ℕ → List ℕ
remove_every p [] = []
remove_every p (x ∷ xs) = if x == p then remove_every p xs else x ∷ remove_every p xs

-- The loop over the removed states: the paused states that are left, and the removed ones that the
-- base is told of. Without a removed state both stay the same.
unfoldable pub filter_removed : List ℕ → List ℕ → List ℕ → List ℕ × List ℕ
filter_removed [] paused alt = (paused, alt)
filter_removed (r ∷ rs) paused alt = elim (mem r paused) [
  | true ↦ filter_removed rs (erase_first r paused) (remove_every r alt)
  | false ↦ filter_removed rs paused alt
]

module _ {S : Type 0} (base : SearcherOps S) where
  pub record Deepening : Type 0 where
    pub searcher : S
    pub start_time : ℕ
    pub time : ℕ
    pub paused_states : List ℕ

  unfoldable pub deepening_select : ℕ → Deepening → Option (ℕ × Deepening)
  deepening_select now m = do
    p ← base.select_state m.searcher
    some (p, record m { start_time = now })

  unfoldable pub pause_current : ℕ → Option ℕ → List ℕ → Deepening → Option Deepening
  pause_current elapsed none removed m = some m
  pause_current elapsed (some c) removed m =
      if not (mem c removed) && ltb m.time elapsed
      then (do
        s ← base.update none [] (c ∷ []) m.searcher
        some (record m { searcher = s; paused_states = insert_paused c m.paused_states }))
      else some m

  unfoldable pub fill_paused : Deepening → Option Deepening
  fill_paused m =
      if base.empty m.searcher
      then (do
        s ← base.update none m.paused_states [] m.searcher
        some (record m { searcher = s; time = m.time * 2; paused_states = [] }))
      else some m

  unfoldable pub deepening_update : ℕ → Option ℕ → List ℕ → List ℕ → Deepening → Option Deepening
  deepening_update elapsed cur added removed m = do
    let filtered = filter_removed removed m.paused_states removed
    s ← base.update cur added filtered.1 m.searcher
    n ← pause_current elapsed cur removed (record m { searcher = s; paused_states = filtered.0 })
    fill_paused n

  unfoldable pub deepening_empty : Deepening → Bool
  deepening_empty m = base.empty m.searcher && is_nil m.paused_states

  -- The states that the searcher and the pause hold together.
  abbrev pub all_held : ℕ → Deepening → ℕ
  all_held x m = base.holds x m.searcher + count x m.paused_states
