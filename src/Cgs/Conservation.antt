-- ===== src/Cgs/Conservation.antt =====
-- klee/lib/Core/Searcher.cpp: what CGSSearcher::update does to the set of states.
use cgs.Prelude.{
  ℕ, zero, suc, ◌+◌, ◌-◌, ◌≡◌, inl, inr, ◌∙◌, Option, none, some, List, [], ◌∷◌, Option-cases,
  >>=-eq-some, erase_first, push_back, back, count, count-erase_first, count-push_back, count-mem,
  count-not_mem, arith, length, drop, add_comm,
}
use cgs.Cgs.State.{Program, Searcher, held, deref, write}
use cgs.Cgs.Handlers.{handle_fully_covered_branch, drop_target}
use cgs.Cgs.Update.{
  clear_targets, leave_branch, requeue, on_reach_branch, on_reach_store, on_partly_covered,
  reach_branch_step, reach_store_step, follow, observe, refill_targets, handle_partly,
  renew_targets, add_states, remove_states, update,
}
use cgs.Cgs.Handed.{
  held-handle_partly_covered_branch, held-handle_fully_covered_branch, held-clear_targets,
  held-leave_branch, held-check_infos,
}

module _ (x : ℕ) where
  held-requeue :
      (c : ℕ) (added : List ℕ) (s : Searcher) {t : Searcher}
      → requeue c added s ≡ some t
      → held x t ≡ held x s
  unfolding requeue
  held-requeue c added s h = ground (
    arith,
    count-erase_first x c s.states,
    count-push_back x c (erase_first c s.states),
    count-mem c s.states,
    count-erase_first x c s.branch_states,
    count-push_back x c (erase_first c s.branch_states),
    count-mem c s.branch_states,
  )

  held-on_reach_branch :
      (prog : Program) (c : ℕ) (s : Searcher) {t : Searcher}
      → on_reach_branch prog c s ≡ some t
      → held x t ≡ held x s
  unfolding on_reach_branch
  held-on_reach_branch prog c s h = elim (Option-cases (back s.fully_covered_branches)) [
    | inl e ↦ ground (arith, wrong)
    | inr (bid, e) ↦ ground (
      arith,
      wrong,
      held-leave_branch x (λ xs. c ∷ xs) c (handle_fully_covered_branch prog c bid s)
          (λ xs. add_comm _ _),
      held-handle_fully_covered_branch x prog c bid s,
    )
  ]
    where
      wrong :
          held x (
            leave_branch
              (λ xs. push_back xs c)
              c
              (write s c (record (deref s c) {
                branch_infos = drop_target (deref s c).prev_branch (deref s c).branch_infos;
              })))
          ≡ held x s
      wrong = held-leave_branch x (λ xs. push_back xs c) c _ (count-push_back x c)

  held-on_reach_store :
      (prog : Program) (c : ℕ) (s : Searcher) {t : Searcher}
      → on_reach_store prog c s ≡ some t
      → held x t ≡ held x s
  unfolding on_reach_store
  held-on_reach_store prog c s h =
      let infos = (deref s c).branch_infos in
      ground (
        arith,
        held-check_infos x prog c (drop (length infos - s.new_branch_num_from_store) infos) s,
      )

  held-on_partly_covered :
      (prog : Program) (c : ℕ) (s : Searcher) {t : Searcher}
      → on_partly_covered prog c s ≡ some t
      → held x t ≡ held x s
  unfolding on_partly_covered
  held-on_partly_covered prog c s h = elim (Option-cases (back s.target_branches)) [
    | inl e ↦ ground arith
    | inr (bid, e) ↦ ground (arith, held-handle_partly_covered_branch x prog c bid s)
  ]

  held-reach_branch_step :
      (prog : Program) (c : ℕ) (s : Searcher) {t : Searcher}
      → reach_branch_step prog c s ≡ some t
      → held x t ≡ held x s
  unfolding reach_branch_step
  held-reach_branch_step prog c s h = elim (Option-cases (on_reach_branch prog c s)) [
    | inl e ↦ ground arith
    | inr (u, e) ↦ ground (arith, held-on_reach_branch prog c s e)
  ]

  held-reach_store_step :
      (prog : Program) (c : ℕ) (s : Searcher) {t : Searcher}
      → reach_store_step prog c s ≡ some t
      → held x t ≡ held x s
  unfolding reach_store_step
  held-reach_store_step prog c s {t} h = ground (arith, held-on_reach_store prog c s {t = t})

  held-follow :
      (prog : Program) (c : ℕ) (added : List ℕ) (s : Searcher) {t : Searcher}
      → follow prog c added s ≡ some t
      → held x t ≡ held x s
  unfolding follow
  held-follow prog c added s h =
      let (s1, e1, h1) = >>=-eq-some (requeue c added s) _ h in
      let (s2, e2, h2) = >>=-eq-some (reach_branch_step prog c s1) _ h1 in
      let (s3, e3, h3) = >>=-eq-some (reach_store_step prog c s2) _ h2 in
      held-on_partly_covered prog c s3 h3
      ∙ held-reach_store_step prog c s2 e3
      ∙ held-reach_branch_step prog c s1 e2
      ∙ held-requeue c added s e1

  held-observe :
      (prog : Program) (cur : Option ℕ) (added removed : List ℕ) (s : Searcher) {t : Searcher}
      → observe prog cur added removed s ≡ some t
      → held x t ≡ held x s
  unfolding observe
  held-observe prog none added removed s h = ground arith
  held-observe prog (some c) added removed s {t} h =
      ground (arith, held-follow prog c added s {t = t})

  held-handle_partly :
      (prog : Program) (cur : Option ℕ) (bid : ℕ) (s : Searcher) {t : Searcher}
      → handle_partly prog cur bid s ≡ some t
      → held x t ≡ held x s
  unfolding handle_partly
  held-handle_partly prog none bid s h = ground arith
  held-handle_partly prog (some c) bid s h =
      ground (arith, held-handle_partly_covered_branch x prog c bid s)

  held-refill_targets :
      (prog : Program) (cur : Option ℕ) (n : ℕ) (s : Searcher) {t : Searcher}
      → refill_targets prog cur n s ≡ some t
      → held x t ≡ held x s
  unfolding refill_targets
  held-refill_targets prog cur zero s h = ground arith
  held-refill_targets prog cur (suc n) s {t} h =
      elim (Option-cases (back s.partly_covered_branches)) [
        | inl e ↦ ground arith
        | inr (bid, e) ↦
            let (u, eu, hu) =
              >>=-eq-some (handle_partly prog cur bid _) _ (rw (e, refill_targets) at h) in
            held-refill_targets prog cur n u hu ∙ held-handle_partly prog cur bid _ eu
      ]

  held-renew_targets :
      (prog : Program) (cur : Option ℕ) (s : Searcher) {t : Searcher}
      → renew_targets prog cur s ≡ some t
      → held x t ≡ held x s
  unfolding renew_targets
  held-renew_targets prog cur s h =
      elim (Option-cases (refill_targets prog cur s.target_branch_num (clear_targets s))) [
        | inl e ↦ ground arith
        | inr (u, e) ↦ ground (
          arith,
          held-refill_targets prog cur s.target_branch_num (clear_targets s) e,
          held-clear_targets x s,
        )
      ]

  held-add_states :
      (prog : Program) (cur : Option ℕ) (added : List ℕ) (s : Searcher)
      → held x (add_states prog cur added s) ≡ held x s + count x added
  unfolding add_states
  held-add_states prog cur [] s = omega arith
  held-add_states prog none (p ∷ ps) s = omega (
    arith,
    held-add_states prog none ps (record s { states = push_back s.states p }),
    count-push_back x p s.states,
  )
  held-add_states prog (some c) (p ∷ ps) s = ground (
    arith,
    held-add_states prog (some c) ps (record s { branch_states = push_back s.branch_states p }),
    held-add_states prog (some c) ps (record s { states = push_back s.states p }),
    count-push_back x p s.states,
    count-push_back x p s.branch_states,
  )

  held-remove_states :
      (removed : List ℕ) (s : Searcher)
      → held x (remove_states removed s) ≡ held x s - count x removed
  unfolding remove_states
  held-remove_states [] s = omega arith
  held-remove_states (p ∷ ps) s = ground (
    arith,
    held-remove_states ps (record s { branch_states = erase_first p s.branch_states }),
    held-remove_states ps (record s { states = erase_first p s.states }),
    count-erase_first x p s.branch_states,
    count-erase_first x p s.states,
    count-mem p s.branch_states,
    count-not_mem p s.branch_states,
  )

-- If CGSSearcher::update runs through, then it holds each execution state as often as before, once
-- more for each occurrence among the added states, and once less for each occurrence among the
-- removed ones, as far as there are any: no branch of update loses or duplicates a state.
pub held-update :
    (prog : Program) (cur : Option ℕ) (added removed : List ℕ) (s t : Searcher)
    → update prog cur added removed s ≡ some t
    → (x : ℕ) → held x t ≡ held x s + count x added - count x removed
unfolding update
held-update prog cur added removed s t h x =
    let (s1, e1, h1) = >>=-eq-some (observe prog cur added removed s) _ h in
    let (s2, e2, h2) = >>=-eq-some (renew_targets prog cur s1) _ h1 in
    ground (
      arith,
      held-observe x prog cur added removed s e1,
      held-renew_targets x prog cur s1 e2,
      held-add_states x prog cur added s2,
      held-remove_states x removed (add_states prog cur added s2),
    )
