-- ===== src/Cgs/Tracking.antt =====
-- klee/lib/Core/Executor.cpp: what executeInstruction does for the searcher at a concrete branch, a
-- switch and a store, and the renewal of the targets in run. What the interpreter finds out about
-- the instruction (its identifiers, its operands, the coverage statistics) comes in as arguments.
use Prim.Native.String.{String}
use cgs.Prelude.{
  ℕ, ◌+◌, ◌%◌, ◌^◌, Bool, true, false, not, ◌&&◌, Option, none, some, List, [], ◌∷◌, ltb, ◌==◌,
  if◌then◌else◌, ◌>>=◌, mem, erase_first, push_back, back, pop_back, is_nil, length,
}
use cgs.Cgs.State.{BranchInfo, ExecState, BdDep, Program, Searcher, put, deref, write}
use cgs.Cgs.StoreValue.{insert, value_or_zero}
use cgs.Cgs.Handlers.{new_info}
use cgs.Cgs.Recording.{Operands, record_operands, record_arith}

pub record Executor : Type 0 where
  pub searcher : Searcher
  pub program : Program
  pub invalid_branches : List ℕ
  pub reach_branch_count : ℕ → Option ℕ
  pub max_reach_branch_count : ℕ
  pub stores_with_same_var : ℕ → Option (List ℕ)

-- What the interpreter knows of the comparison: `values` is none unless both are constants.
pub record Observation : Type 0 where
  pub operands : Operands
  pub values : Option (ℕ × ℕ)
  pub arith : Option (String × ℕ)

unfoldable pub has_target : ℕ → List BranchInfo → Bool
has_target bid [] = false
has_target bid (i ∷ is) = if i.target_branch_id == bid then true else has_target bid is

-- `reachBranchCount[bid] += 1`, and the branch is invalid once that is over the limit.
unfoldable pub count_reach : ℕ → Executor → Executor
count_reach bid x =
    let n = (value_or_zero (x.reach_branch_count bid) + 1) % 2 ^ 32 in
    record x {
      reach_branch_count = put x.reach_branch_count bid (some n);
      invalid_branches =
          if ltb x.max_reach_branch_count n
          then insert bid x.invalid_branches
          else x.invalid_branches;
    }

-- The state reaches a branch that it aims at.
unfoldable pub mark_reach : ℕ → ℕ → Executor → Executor
mark_reach c bid x =
    let e = deref x.searcher c in
    if has_target bid e.branch_infos
    then count_reach bid
        (record x { searcher = write x.searcher c (record e { reach_branch = true }) })
    else x

-- Whether the branch is found for the first time, and depends on a store.
unfoldable pub is_unknown : ℕ → Executor → Bool
is_unknown bid x =
    let s = x.searcher in
    not (mem bid x.invalid_branches)
    && not (mem bid s.target_branches)
    && not (mem bid s.partly_covered_branches)
    && not (is_nil (x.program.dep bid).stores)

-- The count of a branch that is found: whether it goes on, and the new executor.
unfoldable pub count_found : ℕ → Executor → Bool × Executor
count_found bid x = elim (x.reach_branch_count bid) [
  | none ↦ (true, record x { reach_branch_count = put x.reach_branch_count bid (some 1) })
  | some n ↦
      let n' = (n + 1) % 2 ^ 32 in
      let x' = record x { reach_branch_count = put x.reach_branch_count bid (some n') } in
      if ltb x.max_reach_branch_count n'
      then (false, record x' { invalid_branches = insert bid x.invalid_branches })
      else (true, x')
]

-- A found branch becomes a target while there is room.
unfoldable pub enqueue_branch : ℕ → Searcher → Searcher
enqueue_branch bid s =
    if ltb (length s.target_branches) s.target_branch_num
    then record s {
      target_branches = push_back s.target_branches bid;
      new_partly_covered_branch = true;
    }
    else record s { partly_covered_branches = push_back s.partly_covered_branches bid }

unfoldable pub set_dep : ℕ → BdDep → Executor → Executor
set_dep bid d x = record x { program = record (x.program) { dep = put x.program.dep bid d } }

-- The record of a `br`; `none` is a failed assertion.
unfoldable pub record_branch : ℕ → Observation → Executor → Option Executor
record_branch bid ob x = elim ob.values [
  | none ↦ some (record x { invalid_branches = insert bid x.invalid_branches })
  | some (c1, c2) ↦ do
    d ← record_operands ob.operands c1 c2 (x.program.dep bid)
    let x' = set_dep bid (record_arith ob.arith d) x
    some (record x' { searcher = enqueue_branch bid x'.searcher })
]

-- Step 1 of the algorithm at a `br`.
unfoldable pub find_branch : ℕ → Observation → Executor → Option Executor
find_branch bid ob x =
    if is_unknown bid x
    then (let (more, x') = count_found bid x in if more then record_branch bid ob x' else some x')
    else some x

-- Step 1 of the algorithm at a `switch`, which records nothing.
unfoldable pub find_switch : ℕ → Executor → Executor
find_switch bid x =
    if is_unknown bid x
    then (let (more, x') = count_found bid x in
        if more then record x' { searcher = enqueue_branch bid x'.searcher } else x')
    else x

-- A branch that is covered leaves the targets, and the last of the others takes its place.
unfoldable pub replace_target : ℕ → Searcher → Searcher
replace_target bid s =
    let t = record s { target_branches = erase_first bid s.target_branches } in
    elim (back s.partly_covered_branches) [
      | none ↦ t
      | some next ↦ record t {
        partly_covered_branches = pop_back s.partly_covered_branches;
        target_branches = push_back (erase_first bid s.target_branches) next;
        new_partly_covered_branch = true;
      }
    ]

-- Step 3 of the algorithm.
unfoldable pub cover_branch : ℕ → Searcher → Searcher
cover_branch bid s =
    if mem bid s.fully_covered_branches
    then s
    else (let t = record s {
      fully_covered_branches = push_back s.fully_covered_branches bid;
      new_fully_covered_branch = true;
    } in
        if mem bid s.target_branches
        then replace_target bid t
        else record t { partly_covered_branches = erase_first bid s.partly_covered_branches })

-- A concrete `br` with a known identifier; `full` tells whether both sides are covered.
unfoldable pub visit_br : ℕ → ℕ → Bool → Observation → Executor → Option Executor
visit_br c bid full ob x =
    let x' = mark_reach c bid x in
    if full
    then some (record x' { searcher = cover_branch bid x'.searcher })
    else find_branch bid ob x'

-- A concrete `switch` that takes the case of the value.
unfoldable pub visit_switch : ℕ → ℕ → ℕ → Executor → Executor
visit_switch c bid value x =
    let x1 = mark_reach c bid x in
    let d = x1.program.dep bid in
    let left = erase_first value d.un_covered_values in
    let x2 = set_dep bid (record d { un_covered_values = left }) x1 in
    if is_nil left
    then record x2 { searcher = cover_branch bid x2.searcher }
    else find_switch bid x2

-- The first entry for the store is erased.
unfoldable pub drop_store : ℕ → List BranchInfo → List BranchInfo
drop_store sid [] = []
drop_store sid (i ∷ is) = if i.reach_store_id == sid then is else i ∷ drop_store sid is

-- The first entry, in the order of iteration, that another value of the same variable replaces.
unfoldable pub drop_stale : List ℕ → List ℕ → ℕ → ExecState → ExecState
drop_stale related [] value e = e
drop_stale related (sid ∷ order) value e =
    let stale : Bool = elim (e.store_values sid) [
      | none ↦ false
      | some v ↦ mem sid related && not (v == value)
    ] in
    let rest = drop_stale related order value e in
    if stale
    then record e {
      store_values = put e.store_values sid none;
      branch_infos = drop_store sid e.branch_infos;
    }
    else rest

-- One target branch: whether it depends on the store, unless the value is known to be of no use.
-- Reading a cache that is not there makes an empty one.
unfoldable pub aim_target : Program → ℕ → ℕ → ℕ → ℕ → Searcher → Searcher
aim_target prog c sid value bid s =
    let bad : List ℕ = elim (s.memory.invalid_store_values bid) [ none ↦ [] | some vs ↦ vs ] in
    let t = record s {
      memory = record (s.memory) {
        invalid_store_values = put s.memory.invalid_store_values bid (some bad);
      };
    } in
    let e = deref s c in
    let u =
      record (write t c (record e {
        reach_store = true;
        reach_branch = false;
        branch_infos = push_back e.branch_infos (new_info sid bid);
      })) { new_branch_num_from_store = (s.new_branch_num_from_store + 1) % 2 ^ 32 } in
    if mem value bad then t else if mem sid (prog.dep bid).stores then u else t

-- The loop over the target branches.
unfoldable pub aim_targets : Program → ℕ → ℕ → ℕ → List ℕ → Searcher → Searcher
aim_targets prog c sid value [] s = s
aim_targets prog c sid value (bid ∷ bids) s =
    aim_targets prog c sid value bids (aim_target prog c sid value bid s)

-- A store of a constant that is no pointer; `order` is the order of iteration of the state's values.
unfoldable pub visit_store : List ℕ → ℕ → ℕ → ℕ → Executor → Executor
visit_store order c sid value x =
    let s = x.searcher in
    let e = deref s c in
    let e1 : ExecState = elim (x.stores_with_same_var sid) [
      | none ↦ e
      | some related ↦ drop_stale related order value e
    ] in
    let s1 = write s c (record e1 { store_values = put e1.store_values sid (some value) }) in
    record x { searcher = aim_targets x.program c sid value s.target_branches s1 }

-- After an instruction, by the number of instructions so far.
unfoldable pub request_renewal : ℕ → ℕ → Searcher → Searcher
request_renewal update_insts inst_count s =
    if not (inst_count == 0) && inst_count % update_insts == 0
    then record s { update_target_branch = true }
    else s
