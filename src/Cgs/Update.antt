-- ===== src/Cgs/Update.antt =====
-- klee/lib/Core/Searcher.cpp: CGSSearcher::selectState, update and empty. `none` is an
-- iterator or a pointer that the code does not check; an iterator at which the code erased and
-- with which it goes on sets `stale`.
use cgs.Prelude.{
  ℕ, ◌-◌, Bool, true, false, ◌&&◌, ◌||◌, not, Option, none, some, List, [], ◌∷◌, ◌++◌, ◌==◌, leb,
  zero, suc, if◌then◌else◌, ◌>>=◌, mem, erase_first, erase_found, push_back, back, pop_back, front,
  is_nil, length, take, drop,
}
use cgs.Cgs.State.{BranchInfo, Program, Memory, Searcher, deref, write}
use cgs.Cgs.StoreValue.{is_new_store_value}
use cgs.Cgs.Handlers.{
  Scan, move_to_branch, drop_target, handle_partly_covered_branch, handle_fully_covered_branch,
  set_state,
}

unfoldable pub select_state : Searcher → Option ℕ
select_state s = if is_nil s.branch_states then front s.states else front s.branch_states

unfoldable pub empty : Searcher → Bool
empty s = is_nil s.states && is_nil s.branch_states

-- After a fork the current state goes to the back of the vector that is in use.
unfoldable pub requeue : ℕ → List ℕ → Searcher → Option Searcher
requeue c added s =
    if is_nil added
    then some s
    else if is_nil s.branch_states
    then (do left ← erase_found c s.states; some (record s { states = push_back left c }))
    else (do
      left ← erase_found c s.branch_states
      some (record s { branch_states = push_back left c }))

-- With no target branch left the state leaves `branch_states`; `place` puts it into `states`.
unfoldable pub leave_branch : (List ℕ → List ℕ) → ℕ → Searcher → Searcher
leave_branch place c s =
    if is_nil (deref s c).branch_infos && mem c s.branch_states
    then record s { branch_states = erase_first c s.branch_states; states = place s.states }
    else s

-- The state reached a target branch: it is fully covered now, or the entry for it was wrong.
unfoldable pub on_reach_branch : Program → ℕ → Searcher → Option Searcher
on_reach_branch prog c s =
    if s.new_fully_covered_branch
    then (do
      bid ← back s.fully_covered_branches
      let t = leave_branch (λ xs. c ∷ xs) c (handle_fully_covered_branch prog c bid s)
      some (record t { new_fully_covered_branch = false }))
    else (let e = deref s c in
        let t = write s c (record e { branch_infos = drop_target e.prev_branch e.branch_infos }) in
        some (leave_branch (λ xs. push_back xs c) c t))

-- The entries from the newest stores that still help; each success moves the state. The others are
-- erased in place, and the loop goes on with the erased iterator.
unfoldable pub check_infos : Program → ℕ → List BranchInfo → Searcher → List BranchInfo × Searcher
check_infos prog c [] s = ([], s)
check_infos prog c (i ∷ is) s =
    let (new, m) = is_new_store_value prog s.memory c i.target_branch_id i.reach_store_id in
    let t = record s { memory = m; stale = s.stale || not new } in
    let (kept, u) = check_infos prog c is (if new then move_to_branch c t else t) in
    (if new then i ∷ kept else kept, u)

unfoldable pub on_reach_store : Program → ℕ → Searcher → Option Searcher
on_reach_store prog c s =
    let infos = (deref s c).branch_infos in
    if leb s.new_branch_num_from_store (length infos)
    then (let start = length infos - s.new_branch_num_from_store in
        let (kept, t) = check_infos prog c (drop start infos) s in
        some
          (record (write t c
            (record (deref t c) { branch_infos = take start infos ++ kept; reach_store = false })) {
              new_branch_num_from_store = 0;
            }))
    else none

unfoldable pub on_partly_covered : Program → ℕ → Searcher → Option Searcher
on_partly_covered prog c s =
    if not (is_nil s.target_branches) && s.new_partly_covered_branch
    then (do
      bid ← back s.target_branches
      some (record (handle_partly_covered_branch prog c bid s) {
        new_partly_covered_branch = false;
      }))
    else some s

unfoldable pub reach_branch_step : Program → ℕ → Searcher → Option Searcher
reach_branch_step prog c s =
    if (deref s c).reach_branch
    then (do
      t ← on_reach_branch prog c s
      some (write t c (record (deref t c) { reach_branch = false })))
    else some s

unfoldable pub reach_store_step : Program → ℕ → Searcher → Option Searcher
reach_store_step prog c s = if (deref s c).reach_store then on_reach_store prog c s else some s

-- What the current state, which goes on, makes the searcher do.
unfoldable pub follow : Program → ℕ → List ℕ → Searcher → Option Searcher
follow prog c added s = do
  s1 ← requeue c added s
  s2 ← reach_branch_step prog c s1
  s3 ← reach_store_step prog c s2
  on_partly_covered prog c s3

unfoldable pub observe : Program → Option ℕ → List ℕ → List ℕ → Searcher → Option Searcher
observe prog none added removed s = some s
observe prog (some c) added removed s = if mem c removed then some s else follow prog c added s

-- The loop over `branch_states` when the target branches are renewed, which goes on with the
-- iterator that it erased at.
unfoldable pub clear_states : List ℕ → Memory → Scan
clear_states [] m = record { kept = []; moved = []; memory = m }
clear_states (p ∷ ps) m =
    let e = record (m.heap p) { branch_infos = [] } in
    let rest = clear_states ps (set_state m p e) in
    if not e.covered_new
    then record rest { moved = p ∷ rest.moved }
    else record rest { kept = p ∷ rest.kept }

unfoldable pub clear_targets : Searcher → Searcher
clear_targets s =
    let t = clear_states s.branch_states s.memory in
    record s {
      branch_states = t.kept;
      states = s.states ++ t.moved;
      memory = t.memory;
      stale = s.stale || not (is_nil t.moved);
      target_branches = [];
    }

-- A null current state is used only for a branch with stores.
unfoldable pub handle_partly : Program → Option ℕ → ℕ → Searcher → Option Searcher
handle_partly prog (some c) bid s = some (handle_partly_covered_branch prog c bid s)
handle_partly prog none bid s = if is_nil (prog.dep bid).stores then some s else none

-- At most `n` branches go from the back of the partly covered ones to the targets.
unfoldable pub refill_targets : Program → Option ℕ → ℕ → Searcher → Option Searcher
refill_targets prog cur zero s = some s
refill_targets prog cur (suc n) s = elim (back s.partly_covered_branches) [
  | none ↦ some s
  | some bid ↦ do
    t ← handle_partly prog cur bid (record s {
      partly_covered_branches = pop_back s.partly_covered_branches;
      target_branches = push_back s.target_branches bid;
    })
    refill_targets prog cur n t
]

unfoldable pub renew_targets : Program → Option ℕ → Searcher → Option Searcher
renew_targets prog cur s =
    if s.update_target_branch
    then (do
      t ← refill_targets prog cur s.target_branch_num (clear_targets s)
      some (record t { update_target_branch = false }))
    else some s

-- Whether a store of the function that still has branches lies in the block.
unfoldable pub block_has_store : Program → Searcher → ℕ → List ℕ → Bool
block_has_store prog s block [] = false
block_has_store prog s block (sid ∷ sids) =
    if not (is_nil (s.store_to_branches sid)) && (prog.store_block sid == block)
    then true
    else block_has_store prog s block sids

unfoldable pub add_states : Program → Option ℕ → List ℕ → Searcher → Searcher
add_states prog cur [] s = s
add_states prog none (p ∷ ps) s =
    add_states prog none ps (record s { states = push_back s.states p })
add_states prog (some c) (p ∷ ps) s =
    let e = deref s p in
    let to_branch =
      not (is_nil e.branch_infos)
      || block_has_store prog s e.block (s.func_stores (deref s c).function) in
    add_states prog (some c) ps (
      if to_branch
      then record s { branch_states = push_back s.branch_states p }
      else record s { states = push_back s.states p })

unfoldable pub remove_states : List ℕ → Searcher → Searcher
remove_states [] s = s
remove_states (p ∷ ps) s = remove_states ps (
    if mem p s.branch_states
    then record s { branch_states = erase_first p s.branch_states }
    else record s { states = erase_first p s.states })

unfoldable pub update : Program → Option ℕ → List ℕ → List ℕ → Searcher → Option Searcher
update prog cur added removed s = do
  s1 ← observe prog cur added removed s
  s2 ← renew_targets prog cur s1
  some (remove_states removed (add_states prog cur added s2))
