-- ===== src/Cgs/Ready.antt =====
-- klee/lib/Core/Executor.cpp: a store leaves the state as CGSSearcher::update expects it.
use cgs.Prelude.{
  ℕ, ◌≤◌, ◌≡◌, refl, sym, ◌∙◌, true_ne_false, inl, inr, true, false, Option-cases, some, List, [],
  ◌∷◌, length, length-append, arith, ==_self,
}
use cgs.Cgs.State.{ExecState, Program, Searcher, deref}
use cgs.Cgs.Handlers.{new_info}
use cgs.Cgs.Tracking.{Executor, aim_targets, visit_store, drop_stale, aim_target}
use cgs.Cgs.Erased.{ErasesBetween, update-erases}
use cgs.Cgs.Update.{select_state, update}

-- The counter of new entries is within the entries, and a state does not reach a branch and a store
-- at once.
pub record IsCounted (c : ℕ) (s : Searcher) : Type 0 where
  pub counted : s.new_branch_num_from_store ≤ length (deref s c).branch_infos
  pub apart : (deref s c).reach_store ≡ true → (deref s c).reach_branch ≡ false

-- Each entry that a store adds is counted once.
aim_target-IsCounted :
    (prog : Program) (c sid value bid : ℕ) (s : Searcher)
    → IsCounted c s
    → IsCounted c (aim_target prog c sid value bid s)
unfolding aim_target
aim_target-IsCounted prog c sid value bid s v =
    ground
      (arith, v.counted, ==_self c, length-append (deref s c).branch_infos (new_info sid bid ∷ []))

aim_targets-IsCounted :
    (prog : Program) (c sid value : ℕ) (bids : List ℕ) (s : Searcher)
    → IsCounted c s
    → IsCounted c (aim_targets prog c sid value bids s)
unfolding aim_targets
aim_targets-IsCounted prog c sid value [] s v = v
aim_targets-IsCounted prog c sid value (bid ∷ bids) s v =
    aim_targets-IsCounted prog c sid value bids _ (aim_target-IsCounted prog c sid value bid s v)

flags-drop_stale :
    (related order : List ℕ) (value : ℕ) (e : ExecState)
    → ((drop_stale related order value e).reach_store ≡ e.reach_store)
      × ((drop_stale related order value e).reach_branch ≡ e.reach_branch)
unfolding drop_stale
flags-drop_stale related [] value e = (refl, refl)
flags-drop_stale related (sid ∷ order) value e =
    ground (arith, flags-drop_stale related order value e)

-- A store, with no entry counted from before and no store or branch reached before, leaves a counter
-- within the state's entries, and never both flags.
pub visit_store-IsCounted :
    (order : List ℕ) (c sid value : ℕ) (x : Executor)
    → x.searcher.new_branch_num_from_store ≡ 0
    → (deref x.searcher c).reach_store ≡ false
    → IsCounted c (visit_store order c sid value x).searcher
unfolding visit_store
visit_store-IsCounted order c sid value x h k = elim (Option-cases (x.stores_with_same_var sid)) [
  | inl e ↦
      rw (e, visit_store)
        (aim_targets-IsCounted x.program c sid value _ _ (ground (arith, ==_self c)))
  | inr (related, e) ↦
      rw (e, visit_store)
        (aim_targets-IsCounted x.program c sid value _ _
          (ground (arith, ==_self c, flags-drop_stale related order value (deref x.searcher c))))
]

-- What the loop over the targets leaves as it was.
record SameSchedule (s t : Searcher) : Type 0 where
  selected : select_state t ≡ select_state s
  flag : t.new_fully_covered_branch ≡ s.new_fully_covered_branch
  partly : t.new_partly_covered_branch ≡ s.new_partly_covered_branch
  renewal : t.update_target_branch ≡ s.update_target_branch

aim_targets-same :
    (prog : Program) (c sid value : ℕ) (bids : List ℕ) (s : Searcher)
    → SameSchedule s (aim_targets prog c sid value bids s)
unfolding aim_targets aim_target select_state
aim_targets-same prog c sid value [] s = record {
  selected = refl;
  flag = refl;
  partly = refl;
  renewal = refl;
}
aim_targets-same prog c sid value (bid ∷ bids) s =
    let rest = aim_targets-same prog c sid value bids (aim_target prog c sid value bid s) in
    record {
      selected = rest.selected ∙ ground arith;
      flag = rest.flag ∙ ground arith;
      partly = rest.partly ∙ ground arith;
      renewal = rest.renewal ∙ ground arith;
    }

visit_store-same :
    (order : List ℕ) (c sid value : ℕ) (x : Executor)
    → SameSchedule x.searcher (visit_store order c sid value x).searcher
unfolding visit_store select_state
visit_store-same order c sid value x =
    let rest = aim_targets-same x.program c sid value x.searcher.target_branches _ in
    record {
      selected = rest.selected;
      flag = rest.flag;
      partly = rest.partly;
      renewal = rest.renewal;
    }

no_branch-aim_targets :
    (prog : Program) (c sid value : ℕ) (bids : List ℕ) (s : Searcher)
    → (deref s c).reach_branch ≡ false
    → (deref (aim_targets prog c sid value bids s) c).reach_branch ≡ false
unfolding aim_targets aim_target
no_branch-aim_targets prog c sid value [] s h = h
no_branch-aim_targets prog c sid value (bid ∷ bids) s h =
    no_branch-aim_targets prog c sid value bids (aim_target prog c sid value bid s)
      (ground (arith, ==_self c))

no_branch-visit_store :
    (order : List ℕ) (c sid value : ℕ) (x : Executor)
    → (deref x.searcher c).reach_branch ≡ false
    → (deref (visit_store order c sid value x).searcher c).reach_branch ≡ false
unfolding visit_store
no_branch-visit_store order c sid value x h = elim (Option-cases (x.stores_with_same_var sid)) [
  | inl e ↦
      rw (e, visit_store)
        (no_branch-aim_targets x.program c sid value _ _ (ground (arith, ==_self c)))
  | inr (related, e) ↦
      rw (e, visit_store)
        (no_branch-aim_targets x.program c sid value _ _
          (ground (arith, ==_self c, flags-drop_stale related order value (deref x.searcher c))))
]

-- After the store handler of the executor ran for the selected state, with nothing left over from
-- before and neither a branch nor a renewal waiting, update runs through, whatever was added and
-- removed, and goes on with an iterator at which it erased, which C++ leaves undefined, exactly if
-- the selected state has fewer entries after it than before.
pub update-visit_store :
    (order added removed : List ℕ) (c sid value : ℕ) (x : Executor)
    → x.searcher.new_branch_num_from_store ≡ 0
    → (deref x.searcher c).reach_store ≡ false
    → (deref x.searcher c).reach_branch ≡ false
    → x.searcher.new_fully_covered_branch ≡ false
    → x.searcher.new_partly_covered_branch ≡ false
    → x.searcher.update_target_branch ≡ false
    → select_state x.searcher ≡ some c
    → let s = (visit_store order c sid value x).searcher in
      (t : Searcher) × (update x.program (some c) added removed s ≡ some t) × ErasesBetween c s t
update-visit_store order added removed c sid value x h k b l m n p =
    let same = visit_store-same order c sid value x in
    let v = visit_store-IsCounted order c sid value x h k in
    let quiet = no_branch-visit_store order c sid value x b in
    update-erases x.program c added removed (visit_store order c sid value x).searcher
      (record {
        selected = same.selected ∙ p;
        covered = λ e. absurd (true_ne_false (sym e ∙ same.flag ∙ l));
        counted = λ _. v.counted;
        apart = λ e. absurd (true_ne_false (sym e ∙ quiet));
      })
      (record { no_branch = quiet; no_partly = same.partly ∙ m; no_renewal = same.renewal ∙ n })
