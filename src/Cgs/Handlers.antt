-- ===== src/Cgs/Handlers.antt =====
-- klee/lib/Core/Searcher.cpp: CGSSearcher::handlePartlyCoveredBranch and
-- CGSSearcher::handleFullyCoveredBranch. Unordered sets are lists in their order of iteration.
use cgs.Prelude.{
  ℕ, Bool, true, false, not, ◌&&◌, ◌||◌, Option, none, some, List, [], ◌∷◌, ◌++◌, ◌==◌,
  if◌then◌else◌, mem, erase_first, push_back, is_nil,
}
use cgs.Cgs.State.{BranchInfo, ExecState, Program, Memory, Searcher, put}
use cgs.Cgs.StoreValue.{insert, is_new_store_value}

abbrev pub new_info : ℕ → ℕ → BranchInfo
new_info sid bid = record { reach_store_id = sid; target_branch_id = bid }

abbrev pub set_state : Memory → ℕ → ExecState → Memory
set_state m p e = record m { heap = put m.heap p e }

abbrev pub add_info : Memory → ℕ → ℕ → ℕ → Memory
add_info m p sid bid =
    set_state m p
      (record (m.heap p) { branch_infos = push_back (m.heap p).branch_infos (new_info sid bid) })

-- `storeValues.find(sid) != storeValues.end()`
abbrev pub is_some {ℓ} : {A : Type ℓ} → Option A → Bool
is_some none = false
is_some (some a) = true

abbrev pub has_value : Memory → ℕ → ℕ → Bool
has_value m p sid = is_some ((m.heap p).store_values sid)

-- The first loop of handlePartlyCoveredBranch: the current state aims at the branch.
unfoldable pub aim_current : Program → ℕ → ℕ → List ℕ → Memory → Memory
aim_current prog c bid [] m = m
aim_current prog c bid (sid ∷ sids) m =
    let m' = if has_value m c sid then (is_new_store_value prog m c bid sid).1 else m in
    aim_current prog c bid sids (add_info m' c sid bid)

-- A state goes from `states` to the back of `branch_states`, if it is in the former.
unfoldable pub move_to_branch : ℕ → Searcher → Searcher
move_to_branch c s =
    if mem c s.states
    then record s { states = erase_first c s.states; branch_states = push_back s.branch_states c }
    else s

-- The states left, the states that found a new value, and the memory.
pub record Scan : Type 0 where
  pub kept : List ℕ
  pub moved : List ℕ
  pub memory : Memory

-- What happens to a state with a new value for the branch.
abbrev pub aim_state : Memory → ℕ → ℕ → ℕ → Memory
aim_state m p sid bid =
    add_info (set_state m p (record (m.heap p) { reach_branch = false; reach_store = false })) p sid
      bid

-- One state of the inner loop: whether it moves, and the memory after the test.
unfoldable pub scan_test : Program → ℕ → ℕ → ℕ → ℕ → Memory → Bool × Memory
scan_test prog c bid sid p m =
    if p == c
    then (false, m)
    else if has_value m p sid
    then is_new_store_value prog m p bid sid
    else (false, m)

-- The inner loop over `states`, which erases in place and goes on with the erased iterator.
unfoldable pub scan_states : Program → ℕ → ℕ → ℕ → List ℕ → Memory → Scan
scan_states prog c bid sid [] m = record { kept = []; moved = []; memory = m }
scan_states prog c bid sid (p ∷ ps) m =
    let (moves, m') = scan_test prog c bid sid p m in
    let rest = scan_states prog c bid sid ps (if moves then aim_state m' p sid bid else m') in
    if moves then record rest { moved = p ∷ rest.moved } else record rest { kept = p ∷ rest.kept }

-- The outer loop over the stores of the branch.
unfoldable pub scan_stores : Program → ℕ → ℕ → List ℕ → Searcher → Searcher
scan_stores prog c bid [] s = s
scan_stores prog c bid (sid ∷ sids) s =
    let r = scan_states prog c bid sid s.states s.memory in
    scan_stores prog c bid sids (record s {
      states = r.kept;
      branch_states = s.branch_states ++ r.moved;
      memory = r.memory;
      stale = s.stale || not (is_nil r.moved);
    })

unfoldable pub handle_partly_covered_branch : Program → ℕ → ℕ → Searcher → Searcher
handle_partly_covered_branch prog c bid s =
    let sids = (prog.dep bid).stores in
    scan_stores prog c bid sids
      (move_to_branch c (record s { memory = aim_current prog c bid sids s.memory }))

-- The first loop of handleFullyCoveredBranch: the maps, and the stores whose branches are done.
pub record Released : Type 0 where
  pub store_to_branches : ℕ → List ℕ
  pub stores : List ℕ
  pub remove_sv : List ℕ

unfoldable pub release_stores : ℕ → List ℕ → Released → Released
release_stores bid [] r = r
release_stores bid (sid ∷ sids) r =
    let left = erase_first bid (r.store_to_branches sid) in
    let r' = record r { store_to_branches = put r.store_to_branches sid left } in
    release_stores bid sids (
      if is_nil left
      then record r' { remove_sv = insert sid r.remove_sv; stores = erase_first sid r.stores }
      else r')

-- `storeValues.erase(sid)` for each of the stores
unfoldable pub drop_values : List ℕ → (ℕ → Option ℕ) → ℕ → Option ℕ
drop_values [] vs = vs
drop_values (sid ∷ sids) vs = drop_values sids (put vs sid none)

-- The first entry for the branch is erased.
unfoldable pub drop_target : ℕ → List BranchInfo → List BranchInfo
drop_target bid [] = []
drop_target bid (i ∷ is) = if i.target_branch_id == bid then is else i ∷ drop_target bid is

unfoldable pub forget : ℕ → List ℕ → ExecState → ExecState
forget bid sids e = record e {
  branch_infos = drop_target bid e.branch_infos;
  store_values = drop_values sids e.store_values;
}

-- The loop over `branch_states`, which erases in place and goes on with the erased iterator.
unfoldable pub settle_states : ℕ → ℕ → List ℕ → List ℕ → Memory → Scan
settle_states c bid sids [] m = record { kept = []; moved = []; memory = m }
settle_states c bid sids (p ∷ ps) m =
    let e = forget bid sids (m.heap p) in
    let rest = settle_states c bid sids ps (set_state m p e) in
    if not (p == c) && is_nil e.branch_infos
    then record rest { moved = p ∷ rest.moved }
    else record rest { kept = p ∷ rest.kept }

unfoldable pub handle_fully_covered_branch : Program → ℕ → ℕ → Searcher → Searcher
handle_fully_covered_branch prog c bid s =
    let f = prog.branch_function bid in
    let r = release_stores bid (prog.dep bid).stores (record {
      store_to_branches = s.store_to_branches;
      stores = s.func_stores f;
      remove_sv = [];
    }) in
    let t = settle_states c bid r.remove_sv s.branch_states s.memory in
    record s {
      store_to_branches = r.store_to_branches;
      func_stores = put s.func_stores f r.stores;
      branch_states = t.kept;
      states = s.states ++ t.moved;
      memory = t.memory;
      stale = s.stale || not (is_nil t.moved);
    }
