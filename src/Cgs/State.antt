-- ===== src/Cgs/State.antt =====
-- The data of the concrete-constraint guided searcher: klee/lib/Core/ExecutionState.h (branchInfo
-- and the fields beside it), Executor.h (BDDep and the maps) and Searcher.h (CGSSearcher).
use Prim.Native.String.{String}
use cgs.Prelude.{ℕ, ◌+◌, Bool, Option, List, ◌==◌, if◌then◌else◌, count}

-- A pair of a store that the state went through and the target branch that depends on it.
pub record BranchInfo : Type 0 where
  pub reach_store_id : ℕ
  pub target_branch_id : ℕ

-- What the searcher reads and writes of an execution state. `function` and `block` are those of
-- the instruction at `pc`, `prev_branch` is the branch identifier of the one at `prevPC`.
pub record ExecState : Type 0 where
  pub branch_infos : List BranchInfo
  pub store_values : ℕ → Option ℕ
  pub reach_store : Bool
  pub reach_branch : Bool
  pub covered_new : Bool
  pub function : ℕ
  pub block : ℕ
  pub prev_branch : ℕ

-- The predicates of an integer comparison; `invalid` stands for every other code.
pub data Predicate : Type 0 where
  icmp_eq icmp_ne icmp_sgt icmp_ugt icmp_slt icmp_ult icmp_sge icmp_uge icmp_sle icmp_ule :
      Predicate
  invalid : Predicate

-- What a branch depends on.
pub record BdDep : Type 0 where
  pub is_switch : Bool
  pub stores : List ℕ
  pub pred : Predicate
  pub arith_op : String
  pub arith_var : ℕ
  pub un_covered_pred : Predicate
  pub var : ℕ
  pub constant : ℕ
  pub un_covered_values : List ℕ

-- The instrumented program: the dependencies of each branch, the function of each branch, and the
-- basic block of each store.
pub record Program : Type 0 where
  pub dep : ℕ → BdDep
  pub branch_function : ℕ → ℕ
  pub store_block : ℕ → ℕ

-- What `isNewStoreValue` changes: the execution states and the two caches of values.
pub record Memory : Type 0 where
  pub heap : ℕ → ExecState
  pub invalid_store_values : ℕ → Option (List ℕ)
  pub valid_store_values : ℕ → List ℕ

-- The searcher with the fields of the executor that it holds by reference. A vector is a list whose
-- back is the last element. Loops of the class erase at an iterator and go on with it. The C++
-- standard leaves such an iterator undefined; the model lets it stand at the next element, as where
-- the iterators of a vector are pointers, and `stale` says that this has happened.
pub record Searcher : Type 0 where
  pub states : List ℕ
  pub branch_states : List ℕ
  pub target_branches : List ℕ
  pub fully_covered_branches : List ℕ
  pub partly_covered_branches : List ℕ
  pub target_branch_num : ℕ
  pub update_target_branch : Bool
  pub new_fully_covered_branch : Bool
  pub new_partly_covered_branch : Bool
  pub new_branch_num_from_store : ℕ
  pub func_stores : ℕ → List ℕ
  pub store_to_branches : ℕ → List ℕ
  pub memory : Memory
  pub stale : Bool

-- `m[k] = v`
abbrev pub put {ℓ} : {A : Type ℓ} → (ℕ → A) → ℕ → A → ℕ → A
put m k v j = if j == k then v else m j

-- The state behind a pointer.
abbrev pub deref : Searcher → ℕ → ExecState
deref s p = s.memory.heap p

abbrev pub write : Searcher → ℕ → ExecState → Searcher
write s p e = record s { memory = record (s.memory) { heap = put s.memory.heap p e } }

-- How often the searcher holds a state.
abbrev pub held : ℕ → Searcher → ℕ
held x s = count x s.states + count x s.branch_states
