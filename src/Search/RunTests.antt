-- ===== src/Search/RunTests.antt =====
-- klee/lib/Core/Searcher.cpp: a selection and an update that run through, at concrete states.
use cgs.Prelude.{◌≢◌, true, none, some, [], ◌∷◌, arith}
use cgs.Search.Simple.{dfs}
use cgs.Search.SimpleLaws.{dfs-SearcherLaws}
use cgs.Search.Merging.{Merging, merging_select}
use cgs.Search.Deepening.{Deepening, deepening_update}
use cgs.Search.Runs.{dfs-SearcherRuns, deepening_update-ne-none}
use cgs.Search.MergingRuns.{merging_select-ne-none}

abbrev deepening : Deepening dfs
deepening = record { searcher = 3 ∷ []; start_time = 0; time = 10; paused_states = 1 ∷ 2 ∷ [] }

deepening_update-ne-none_example : deepening_update dfs 15 (some 3) [] (1 ∷ []) deepening ≢ none
deepening_update-ne-none_example =
    deepening_update-ne-none dfs dfs-SearcherLaws dfs-SearcherRuns 15 (some 3) [] (1 ∷ []) deepening
      (λ x. ground arith) (λ c h. ground arith) (λ x. ground arith)

abbrev merging : Merging dfs
merging = record {
  searcher = 1 ∷ 2 ∷ [];
  paused_states = 4 ∷ 5 ∷ [];
  merge_groups = record { reached = 4 ∷ 5 ∷ []; prioritized = none } ∷ [];
}

merging_select-ne-none_example : merging_select dfs true merging ≢ none
merging_select-ne-none_example =
    merging_select-ne-none dfs dfs-SearcherLaws dfs-SearcherRuns 1 true merging (ground arith)
      (λ x. ground arith)
