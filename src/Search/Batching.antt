-- ===== src/Search/Batching.antt =====
-- klee/lib/Core/Searcher.cpp: BatchingSearcher over any searcher. Times are in microseconds.
use cgs.Prelude.{
  ℕ, ◌-◌, ◌%◌, ◌^◌, Bool, ◌&&◌, ◌||◌, Option, none, some, List, ltb, if◌then◌else◌, ◌>>=◌, mem,
}
use cgs.Search.Interface.{SearcherOps}

-- The wall time at its three reads in selectState, and the 64-bit count of instructions.
pub record Clock : Type 0 where
  pub now : ℕ
  pub later : ℕ
  pub selected : ℕ
  pub instructions : ℕ

-- `enlarge` is the multiplication by 1.1, on floating-point numbers.
module _ {S : Type 0} (base : SearcherOps S) (enlarge : ℕ → ℕ) where
  pub record Batching : Type 0 where
    pub searcher : S
    pub time_budget : ℕ
    pub instruction_budget : ℕ
    pub last_state : Option ℕ
    pub last_start_time : ℕ
    pub last_start_instructions : ℕ

  -- A budget of zero is no budget.
  unfoldable pub is_over : Clock → Batching → Bool
  is_over t m =
      (ltb 0 m.time_budget && ltb m.time_budget (t.now - m.last_start_time))
      || (ltb 0 m.instruction_budget
          && ltb m.instruction_budget (t.instructions - m.last_start_instructions))

  unfoldable pub raise_budget : Clock → Batching → Batching
  raise_budget t m =
      let delta = t.later - m.last_start_time in
      if ltb (enlarge m.time_budget) delta then record m { time_budget = delta } else m

  -- The count is kept in 32 bits.
  unfoldable pub start_batch : Clock → Batching → Option (ℕ × Batching)
  start_batch t m = do
    p ← base.select_state m.searcher
    some (
      p,
      record m {
        last_state = some p;
        last_start_time = t.selected;
        last_start_instructions = t.instructions % 2 ^ 32;
      },
    )

  unfoldable pub batching_select : Clock → Batching → Option (ℕ × Batching)
  batching_select t m = elim m.last_state [
    | none ↦ start_batch t m
    | some last ↦ if is_over t m then start_batch t (raise_budget t m) else some (last, m)
  ]

  unfoldable pub drop_last : List ℕ → Batching → Batching
  drop_last removed m = elim m.last_state [
    | none ↦ m
    | some last ↦ if mem last removed then record m { last_state = none } else m
  ]

  unfoldable pub batching_update : Option ℕ → List ℕ → List ℕ → Batching → Option Batching
  batching_update cur added removed m = do
    let n = drop_last removed m
    s ← base.update cur added removed n.searcher
    some (record n { searcher = s })
