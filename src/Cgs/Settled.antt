-- ===== src/Cgs/Settled.antt =====
-- klee/lib/Core/Searcher.cpp: what CGSSearcher::handleFullyCoveredBranch leaves in the states.
use cgs.Prelude.{
  mem-append, ℕ, ◌≡◌, refl, Bool, true, false, not, ◌&&◌, Option, none, List, [], ◌∷◌, ◌==◌,
  if◌then◌else◌, mem, erase_first, ◌||◌, is_nil, arith,
}
use cgs.Cgs.State.{ExecState, Program, Memory, Searcher, put, deref}
use cgs.Cgs.StoreValue.{insert}
use cgs.Cgs.Handlers.{
  Released, forget, drop_target, drop_values, set_state, settle_states, handle_fully_covered_branch,
  release_stores,
}

-- No state stands twice in a vector.
abbrev pub IsDistinct : List ℕ → Type 0
IsDistinct [] = Unit {0}
IsDistinct (p ∷ ps) = (mem p ps ≡ false) × IsDistinct ps

module _ (c bid : ℕ) (sids : List ℕ) where
  -- A state goes back when nothing is left to aim at, but not the current one.
  abbrev pub settles : Memory → ℕ → Bool
  settles m p = not (p == c) && is_nil (forget bid sids (m.heap p)).branch_infos

  -- A state is visited once, and one that is not in the vector is left alone.
  pub heap-settle_states :
      (ps : List ℕ) (m : Memory) (p : ℕ)
      → IsDistinct ps
      → (settle_states c bid sids ps m).memory.heap p
        ≡ (if mem p ps then forget bid sids (m.heap p) else m.heap p)
  unfolding settle_states
  heap-settle_states [] m p d = refl
  heap-settle_states (q ∷ ps) m p d =
      ground (arith, heap-settle_states ps (set_state m q (forget bid sids (m.heap q))) p d.1)

  pub mem-kept :
      (ps : List ℕ) (m : Memory) (p : ℕ)
      → IsDistinct ps
      → mem p (settle_states c bid sids ps m).kept ≡ (mem p ps && not (settles m p))
  unfolding settle_states
  mem-kept [] m p d = refl
  mem-kept (q ∷ ps) m p d =
      ground (arith, mem-kept ps (set_state m q (forget bid sids (m.heap q))) p d.1)

  pub mem-moved :
      (ps : List ℕ) (m : Memory) (p : ℕ)
      → IsDistinct ps
      → mem p (settle_states c bid sids ps m).moved ≡ (mem p ps && settles m p)
  unfolding settle_states
  mem-moved [] m p d = refl
  mem-moved (q ∷ ps) m p d =
      ground (arith, mem-moved ps (set_state m q (forget bid sids (m.heap q))) p d.1)

-- The loop over the stores of a branch, where no store stands twice.
remove_sv-release_stores :
    (bid : ℕ) (sids : List ℕ) (r : Released) (x : ℕ)
    → IsDistinct sids
    → mem x (release_stores bid sids r).remove_sv ≡ (
        if mem x sids
        then is_nil (erase_first bid (r.store_to_branches x)) || mem x r.remove_sv
        else mem x r.remove_sv)
unfolding release_stores
remove_sv-release_stores bid [] r x d = refl
remove_sv-release_stores bid (sid ∷ sids) r x d =
    let left = erase_first bid (r.store_to_branches sid) in
    let r' = record r { store_to_branches = put r.store_to_branches sid left } in
    ground (
      arith,
      remove_sv-release_stores bid sids r' x d.1,
      remove_sv-release_stores bid sids
          (record r' { remove_sv = insert sid r.remove_sv; stores = erase_first sid r.stores }) x
          d.1,
      d.0,
    )

store_to_branches-release_stores :
    (bid : ℕ) (sids : List ℕ) (r : Released) (x : ℕ)
    → IsDistinct sids
    → (release_stores bid sids r).store_to_branches x
      ≡ (if mem x sids then erase_first bid (r.store_to_branches x) else r.store_to_branches x)
unfolding release_stores
store_to_branches-release_stores bid [] r x d = refl
store_to_branches-release_stores bid (sid ∷ sids) r x d =
    let left = erase_first bid (r.store_to_branches sid) in
    let r' = record r { store_to_branches = put r.store_to_branches sid left } in
    ground (
      arith,
      store_to_branches-release_stores bid sids r' x d.1,
      store_to_branches-release_stores bid sids
          (record r' { remove_sv = insert sid r.remove_sv; stores = erase_first sid r.stores }) x
          d.1,
    )

store_values-drop_values :
    (sids : List ℕ) (vs : ℕ → Option ℕ) (x : ℕ)
    → drop_values sids vs x ≡ (if mem x sids then none else vs x)
unfolding drop_values
store_values-drop_values [] vs x = refl
store_values-drop_values (sid ∷ sids) vs x =
    ground (arith, store_values-drop_values sids (put vs sid none) x)

-- The stores of which the branch was the last one.
abbrev pub is_done : Program → Searcher → ℕ → ℕ → Bool
is_done prog s bid sid =
    mem sid (prog.dep bid).stores && is_nil (erase_first bid (s.store_to_branches sid))

-- Nothing but the entries and the values of a state changes.
settled_state :
    (here : Bool) (bid : ℕ) (sids : List ℕ) (e : ExecState)
    → (if here then forget bid sids e else e) ≡ (
        if here
        then record e {
          branch_infos = drop_target bid e.branch_infos;
          store_values = (if here then forget bid sids e else e).store_values;
        }
        else e)
unfolding forget
settled_state true bid sids e = refl
settled_state false bid sids e = refl

-- When a branch is fully covered, a state of branch_states loses its first entry for the branch
-- and its values for the stores that no other branch needs, and keeps everything else; every other
-- state is left as it was; and a state of branch_states stays there exactly if an entry is left or
-- it is the current one, and else is added to states; where no state of branch_states and no store
-- of the branch stands twice.
pub handle_fully_covered_branch_lem :
    (prog : Program) (c bid : ℕ) (s : Searcher) (p : ℕ)
    → IsDistinct s.branch_states
    → IsDistinct (prog.dep bid).stores
    → let t = handle_fully_covered_branch prog c bid s in
      let here = mem p s.branch_states in
      (deref t p ≡ (
        if here
        then record (deref s p) {
          branch_infos = drop_target bid (deref s p).branch_infos;
          store_values = (deref t p).store_values;
        }
        else deref s p))
      × ((sid : ℕ)
          → (deref t p).store_values sid
            ≡ (if here && is_done prog s bid sid then none else (deref s p).store_values sid))
      × (mem p t.branch_states
          ≡ (here && not (not (p == c) && is_nil (drop_target bid (deref s p).branch_infos))))
      × (mem p t.states ≡ (
          mem p s.states
          || (here && (not (p == c) && is_nil (drop_target bid (deref s p).branch_infos)))))
unfolding handle_fully_covered_branch forget
handle_fully_covered_branch_lem prog c bid s p d e =
    let r0 : Released = record {
      store_to_branches = s.store_to_branches;
      stores = s.func_stores (prog.branch_function bid);
      remove_sv = [];
    } in
    let sv = (release_stores bid (prog.dep bid).stores r0).remove_sv in
    let same = heap-settle_states c bid sv s.branch_states s.memory p d in
    (
      rw same (settled_state (mem p s.branch_states) bid sv (deref s p)),
      λ sid. ground (
        arith,
        same,
        store_values-drop_values sv (deref s p).store_values sid,
        remove_sv-release_stores bid (prog.dep bid).stores r0 sid e,
      ),
      ground (arith, mem-kept c bid sv s.branch_states s.memory p d),
      ground (
        arith,
        mem-append p s.states (settle_states c bid sv s.branch_states s.memory).moved,
        mem-moved c bid sv s.branch_states s.memory p d,
      ),
    )
