-- ===== src/Search/Tests.antt =====
-- klee/lib/Core/Searcher.cpp: the searchers at concrete states.
use cgs.Prelude.{
  ℕ, ◌+◌, ◌-◌, ◌^◌, ◌*◌, ◌/◌, ◌<◌, ◌≡◌, ◌≢◌, refl, inr, true, false, none, some, List, [], ◌∷◌,
  ◌==◌, if◌then◌else◌, count, arith, length, some-ne-none, get_elem?, All,
}
use cgs.Cgs.State.{Program, icmp_eq}
use cgs.Search.Interface.{SearcherLaws}
use cgs.Search.Simple.{remove_all, remove_back, dfs, dfs_update, bfs_update, random_update}
use cgs.Search.SimpleLaws.{dfs-SearcherLaws, simple_update-ne-none}
use cgs.Search.CgsLaws.{cgs_searcher, cgs-SearcherLaws}
use cgs.Search.Merging.{
  visit_groups, release_states, continue_state, select_base, Merging, Handler, merging_select,
  merging_update, kept,
}
use cgs.Search.MergingLaws.{kept-merging_select}
use cgs.Search.Deepening.{
  filter_removed, remove_every, pause_current, insert_paused, fill_paused, Deepening,
  deepening_update, deepening_empty, all_held,
}
use cgs.Search.DeepeningLaws.{all_held-deepening_update}
use cgs.Search.Batching.{
  is_over, raise_budget, start_batch, drop_last, Batching, Clock, batching_select, batching_update,
}
use cgs.Search.BatchingLaws.{
  LastIsHeld, batching_select-LastIsHeld, batching_select-budget, start_batch-over,
}
use cgs.Search.Interleaved.{update_each, Interleaved, interleaved_select, interleaved_update}
use cgs.Search.InterleavedLaws.{IsInRange, interleaved_select-IsInRange, interleaved_update-agree}

abbrev three : List ℕ
three = 1 ∷ 2 ∷ 3 ∷ []

simple_update-ne-none_example :
    (dfs_update (some 1) (4 ∷ []) (2 ∷ []) three ≢ none)
    × (bfs_update (some 1) (4 ∷ []) (2 ∷ []) three ≢ none)
    × (random_update (some 1) (4 ∷ []) (2 ∷ []) three ≢ none)
simple_update-ne-none_example =
    simple_update-ne-none (some 1) (4 ∷ []) (2 ∷ []) three (λ x. ground arith) (λ c h. ground arith)

-- Two states are paused and reached the close of the merge.
abbrev group : Handler
group = record { reached = 4 ∷ 5 ∷ []; prioritized = none }

abbrev merging : Merging dfs
merging = record { searcher = three; paused_states = 4 ∷ 5 ∷ []; merge_groups = group ∷ [] }

abbrev merged : Merging dfs
merged = record {
  searcher = 1 ∷ 2 ∷ 3 ∷ 4 ∷ 5 ∷ [];
  paused_states = [];
  merge_groups = record { reached = []; prioritized = none } ∷ [];
}

merging_run : merging_select dfs true merging ≡ some (5, merged)
unfolding merging_select visit_groups release_states continue_state select_base dfs_update
    remove_all
merging_run = refl

kept-merging_select_example : kept dfs 4 merged ≡ kept dfs 4 merging
kept-merging_select_example =
    kept-merging_select dfs dfs-SearcherLaws 4 true merging merged 5 merging_run

abbrev updated : Merging dfs
updated = record {
  searcher = 1 ∷ 3 ∷ 6 ∷ [];
  paused_states = 4 ∷ 5 ∷ [];
  merge_groups = group ∷ [];
}

merging_update_run : merging_update dfs (some 3) (6 ∷ []) (2 ∷ []) merging ≡ some updated
unfolding merging_update dfs_update remove_all remove_back
merging_update_run = refl

-- The current state ran too long and is paused; the state that is removed was paused.
abbrev deepening : Deepening dfs
deepening = record { searcher = 3 ∷ []; start_time = 0; time = 10; paused_states = 1 ∷ 2 ∷ [] }

abbrev deepened : Deepening dfs
deepened = record { searcher = 2 ∷ 3 ∷ []; start_time = 0; time = 20; paused_states = [] }

deepening_run : deepening_update dfs 15 (some 3) [] (1 ∷ []) deepening ≡ some deepened
unfolding deepening_update filter_removed remove_every pause_current insert_paused fill_paused
    dfs_update remove_all remove_back
deepening_run = refl

all_held-deepening_update_example :
    ((x : ℕ) → all_held dfs x deepened ≡ all_held dfs x deepening + count x [] - count x (1 ∷ []))
    × (deepening_empty dfs deepened ≡ dfs.empty deepened.searcher)
all_held-deepening_update_example =
    all_held-deepening_update dfs dfs-SearcherLaws 15 (some 3) [] (1 ∷ []) deepening deepened
      (λ x. ground arith) (λ c h. ground arith) deepening_run

-- Floating-point multiplication by 1.1, rounded down.
abbrev enlarge : ℕ → ℕ
enlarge n = n * 11 / 10

abbrev clock : Clock
clock = record { now = 50; later = 60; selected = 70; instructions = 900 }

abbrev batching : Batching dfs enlarge
batching = record {
  searcher = three;
  time_budget = 0;
  instruction_budget = 100;
  last_state = some 2;
  last_start_time = 10;
  last_start_instructions = 500;
}

abbrev next_batch : Batching dfs enlarge
next_batch = record {
  searcher = three;
  time_budget = 50;
  instruction_budget = 100;
  last_state = some 3;
  last_start_time = 70;
  last_start_instructions = 900;
}

batching_run : batching_select dfs enlarge clock batching ≡ some (3, next_batch)
unfolding batching_select is_over raise_budget start_batch
batching_run = refl

batching-LastIsHeld : LastIsHeld dfs dfs-SearcherLaws enlarge batching
unfolding LastIsHeld
batching-LastIsHeld = inr (2, refl, ground arith)

batching_select-LastIsHeld_example :
    (0 < count 3 three)
    × (next_batch.last_state ≡ some 3)
    × LastIsHeld dfs dfs-SearcherLaws enlarge next_batch
batching_select-LastIsHeld_example =
    batching_select-LastIsHeld dfs dfs-SearcherLaws enlarge clock batching next_batch 3
      batching-LastIsHeld batching_run

batching_select-budget_example : 50 ≡ 60 - 10
unfolding is_over
batching_select-budget_example =
    batching_select-budget dfs dfs-SearcherLaws enlarge clock batching next_batch 3 refl refl
      (some-ne-none 2) refl (ground arith) batching_run

abbrev late : Clock
late = record { now = 90; later = 95; selected = 99; instructions = 2 ^ 33 + 7 }

abbrev late_batch : Batching dfs enlarge
late_batch = record {
  searcher = three;
  time_budget = 0;
  instruction_budget = 100;
  last_state = some 3;
  last_start_time = 99;
  last_start_instructions = 7;
}

late_run : start_batch dfs enlarge late batching ≡ some (3, late_batch)
unfolding start_batch
late_run = refl

start_batch-over_example : is_over dfs enlarge late late_batch ≡ true
start_batch-over_example =
    start_batch-over dfs dfs-SearcherLaws enlarge late late batching late_batch 3 (ground arith)
      (ground arith) (ground arith) (ground arith) late_run

abbrev without_two : Batching dfs enlarge
without_two = record {
  searcher = 1 ∷ 3 ∷ [];
  time_budget = 0;
  instruction_budget = 100;
  last_state = none;
  last_start_time = 10;
  last_start_instructions = 500;
}

batching_update_run : batching_update dfs enlarge none [] (2 ∷ []) batching ≡ some without_two
unfolding batching_update drop_last dfs_update remove_all remove_back
batching_update_run = refl

-- Two depth-first searchers, the first one next.
abbrev taking_turns : Interleaved dfs
taking_turns = record { searchers = three ∷ (3 ∷ 2 ∷ 1 ∷ []) ∷ []; index = 1 }

abbrev turned : Interleaved dfs
turned = record { searchers = three ∷ (3 ∷ 2 ∷ 1 ∷ []) ∷ []; index = 2 }

taking_turns-IsInRange : IsInRange dfs taking_turns
taking_turns-IsInRange = record { above = ground arith; below = ground arith }

interleaved_run : interleaved_select dfs taking_turns ≡ some (3, turned)
unfolding interleaved_select
interleaved_run = refl

interleaved_select-IsInRange_example :
    IsInRange dfs turned
    × (turned.searchers ≡ taking_turns.searchers)
    × (turned.index ≡ (
        if taking_turns.index == 1 then length taking_turns.searchers else taking_turns.index - 1))
    × ((s : List ℕ) × (get_elem? taking_turns.searchers (taking_turns.index - 1) ≡ some s)
        × (dfs.select_state s ≡ some 3))
interleaved_select-IsInRange_example =
    interleaved_select-IsInRange dfs taking_turns turned 3 taking_turns-IsInRange interleaved_run

abbrev both_updated : Interleaved dfs
both_updated = record { searchers = (1 ∷ 3 ∷ 4 ∷ []) ∷ (3 ∷ 1 ∷ 4 ∷ []) ∷ []; index = 1 }

interleaved_update_run :
    interleaved_update dfs (some 1) (4 ∷ []) (2 ∷ []) taking_turns ≡ some both_updated
unfolding interleaved_update update_each dfs_update remove_all remove_back
interleaved_update_run = refl

interleaved_update-agree_example :
    IsInRange dfs both_updated
    × All (λ s. dfs.holds 2 s ≡ 1 + count 2 (4 ∷ []) - count 2 (2 ∷ [])) both_updated.searchers
interleaved_update-agree_example =
    interleaved_update-agree dfs dfs-SearcherLaws 2 (some 1) (4 ∷ []) (2 ∷ []) 1 taking_turns
      both_updated taking_turns-IsInRange (refl, (refl, tt)) interleaved_update_run

abbrev program : Program
program = record {
  dep = λ b. record {
    is_switch = false;
    stores = 7 ∷ [];
    pred = icmp_eq;
    arith_op = "";
    arith_var = 0;
    un_covered_pred = icmp_eq;
    var = 3;
    constant = 10;
    un_covered_values = [];
  };
  branch_function = λ b. 0;
  store_block = λ i. 4;
}

cgs-SearcherLaws_example : SearcherLaws (cgs_searcher program)
cgs-SearcherLaws_example = cgs-SearcherLaws program
