-- ===== src/Cgs/Handed.antt =====
-- The handlers of the searcher move states between its two vectors: none is lost or made up.
use cgs.Prelude.{
  is_nil, not, ◌||◌, ℕ, ◌+◌, ◌≡◌, refl, ◌∙◌, true, false, List, [], ◌∷◌, ◌++◌, ◌==◌, if◌then◌else◌,
  count, count-append, count-erase_first, count-push_back, count-mem, arith,
}
use cgs.Cgs.State.{BranchInfo, Program, Memory, Searcher, held}
use cgs.Cgs.StoreValue.{is_new_store_value}
use cgs.Cgs.Handlers.{
  Scan, move_to_branch, scan_states, scan_test, scan_stores, settle_states, aim_state,
  handle_partly_covered_branch, handle_fully_covered_branch, forget, set_state, release_stores,
}
use cgs.Cgs.Update.{clear_states, clear_targets, leave_branch, check_infos}

module _ (x : ℕ) where
  pub held-move_to_branch : (c : ℕ) (s : Searcher) → held x (move_to_branch c s) ≡ held x s
  unfolding move_to_branch
  held-move_to_branch c s = ground (
    arith,
    count-erase_first x c s.states,
    count-push_back x c s.branch_states,
    count-mem c s.states,
  )

  -- What a loop keeps and moves is what it went through.
  abbrev pub Splits : Scan → List ℕ → Type 0
  Splits r ps = count x r.kept + count x r.moved ≡ count x ps

  pub scan_states-Splits :
      (prog : Program) (c bid sid : ℕ) (ps : List ℕ) (m : Memory)
      → Splits (scan_states prog c bid sid ps m) ps
  unfolding scan_states
  scan_states-Splits prog c bid sid [] m = refl
  scan_states-Splits prog c bid sid (p ∷ ps) m = ground (
    arith,
    scan_states-Splits prog c bid sid ps (aim_state (scan_test prog c bid sid p m).1 p sid bid),
    scan_states-Splits prog c bid sid ps (scan_test prog c bid sid p m).1,
  )

  held-scan_stores :
      (prog : Program) (c bid : ℕ) (sids : List ℕ) (s : Searcher)
      → held x (scan_stores prog c bid sids s) ≡ held x s
  unfolding scan_stores
  held-scan_stores prog c bid [] s = refl
  held-scan_stores prog c bid (sid ∷ sids) s =
      let r = scan_states prog c bid sid s.states s.memory in
      held-scan_stores prog c bid sids (record s {
        states = r.kept;
        branch_states = s.branch_states ++ r.moved;
        memory = r.memory;
        stale = s.stale || not (is_nil r.moved);
      })
      ∙ omega (
        arith,
        scan_states-Splits prog c bid sid s.states s.memory,
        count-append x s.branch_states r.moved,
      )

  -- A new target branch loses no state.
  pub held-handle_partly_covered_branch :
      (prog : Program) (c bid : ℕ) (s : Searcher)
      → held x (handle_partly_covered_branch prog c bid s) ≡ held x s
  unfolding handle_partly_covered_branch
  held-handle_partly_covered_branch prog c bid s =
      held-scan_stores prog c bid _ _ ∙ held-move_to_branch c _

  settle_states-Splits :
      (c bid : ℕ) (sids ps : List ℕ) (m : Memory) → Splits (settle_states c bid sids ps m) ps
  unfolding settle_states
  settle_states-Splits c bid sids [] m = refl
  settle_states-Splits c bid sids (p ∷ ps) m =
      ground
        (arith, settle_states-Splits c bid sids ps (set_state m p (forget bid sids (m.heap p))))

  -- Nor does a fully covered one.
  pub held-handle_fully_covered_branch :
      (prog : Program) (c bid : ℕ) (s : Searcher)
      → held x (handle_fully_covered_branch prog c bid s) ≡ held x s
  unfolding handle_fully_covered_branch
  held-handle_fully_covered_branch prog c bid s =
      let r = release_stores bid (prog.dep bid).stores (record {
        store_to_branches = s.store_to_branches;
        stores = s.func_stores (prog.branch_function bid);
        remove_sv = [];
      }) in
      let t = settle_states c bid r.remove_sv s.branch_states s.memory in
      omega (
        arith,
        settle_states-Splits c bid r.remove_sv s.branch_states s.memory,
        count-append x s.states t.moved,
      )

  clear_states-Splits : (ps : List ℕ) (m : Memory) → Splits (clear_states ps m) ps
  unfolding clear_states
  clear_states-Splits [] m = refl
  clear_states-Splits (p ∷ ps) m =
      ground
        (arith, clear_states-Splits ps (set_state m p (record (m.heap p) { branch_infos = [] })))

  pub held-clear_targets : (s : Searcher) → held x (clear_targets s) ≡ held x s
  unfolding clear_targets
  held-clear_targets s = omega (
    arith,
    clear_states-Splits s.branch_states s.memory,
    count-append x s.states (clear_states s.branch_states s.memory).moved,
  )

  -- `place` puts the state at one end.
  pub held-leave_branch :
      (place : List ℕ → List ℕ) (c : ℕ) (s : Searcher)
      → ((xs : List ℕ) → count x (place xs) ≡ count x xs + (if x == c then 1 else 0))
      → held x (leave_branch place c s) ≡ held x s
  unfolding leave_branch
  held-leave_branch place c s h =
      ground (arith, h s.states, count-erase_first x c s.branch_states, count-mem c s.branch_states)

  pub held-check_infos :
      (prog : Program) (c : ℕ) (is : List BranchInfo) (s : Searcher)
      → held x (check_infos prog c is s).1 ≡ held x s
  unfolding check_infos
  held-check_infos prog c [] s = refl
  held-check_infos prog c (i ∷ is) s =
      let (new, m) = is_new_store_value prog s.memory c i.target_branch_id i.reach_store_id in
      let t = record s { memory = m; stale = s.stale || not new } in
      elim new
        as (λ b.
          held x (check_infos prog c is (if b then move_to_branch c t else t)).1 ≡ held x s) [
            | true ↦ held-check_infos prog c is (move_to_branch c t) ∙ held-move_to_branch c t
            | false ↦ held-check_infos prog c is t
          ]
