-- ===== src/Cgs/Defined.antt =====
-- klee/lib/Core/Searcher.cpp: when CGSSearcher::update runs through.
use cgs.Prelude.{
  ℕ, zero, suc, ◌≤◌, ◌≡◌, ◌≢◌, refl, inl, inr, true, false, none, some, List, [], ◌∷◌, Bool-cases,
  Option-cases, push_back, >>=-ne-none, some-ne-none, back, front, mem, arith, length, ==_self,
}
use cgs.Cgs.State.{Program, Memory, Searcher, deref, write}
use cgs.Cgs.Handlers.{forget, set_state, settle_states, handle_fully_covered_branch, drop_target}
use cgs.Cgs.Update.{
  select_state, clear_targets, leave_branch, requeue, on_reach_branch, on_reach_store,
  on_partly_covered, reach_branch_step, reach_store_step, follow, observe, refill_targets,
  handle_partly, renew_targets, update,
}

-- What the executor leaves behind when it calls `update` after an instruction of the state `c`.
pub record IsReady (c : ℕ) (s : Searcher) : Type 0 where
  pub selected : select_state s ≡ some c
  pub covered : s.new_fully_covered_branch ≡ true → s.fully_covered_branches ≢ []
  pub counted :
      (deref s c).reach_store ≡ true → s.new_branch_num_from_store ≤ length (deref s c).branch_infos
  pub apart : (deref s c).reach_branch ≡ true → (deref s c).reach_store ≡ false

back-ne-none {ℓ} : {A : Type ℓ} (xs : List A) → xs ≢ [] → back xs ≢ none
back-ne-none [] h = absurd (h refl)
back-ne-none (x ∷ []) h = λ e. cc
back-ne-none (x ∷ y ∷ ys) h = back-ne-none (y ∷ ys) (λ e. cc)

front-mem : (c : ℕ) (xs : List ℕ) → front xs ≡ some c → mem c xs ≡ true
front-mem c [] h = cc
front-mem c (x ∷ xs) h = ground (arith, ==_self c)

requeue-ne-none :
    (c : ℕ) (added : List ℕ) (s : Searcher) → select_state s ≡ some c → requeue c added s ≢ none
unfolding select_state requeue
requeue-ne-none c added s h = ground (arith, front-mem c s.states, front-mem c s.branch_states)

-- What `requeue` leaves as it was.
record Requeued (s t : Searcher) : Type 0 where
  memory : t.memory ≡ s.memory
  counted : t.new_branch_num_from_store ≡ s.new_branch_num_from_store
  covered : t.fully_covered_branches ≡ s.fully_covered_branches
  flag : t.new_fully_covered_branch ≡ s.new_fully_covered_branch

requeue-Requeued :
    (c : ℕ) (added : List ℕ) (s : Searcher) {t : Searcher}
    → requeue c added s ≡ some t
    → Requeued s t
unfolding requeue
requeue-Requeued c added s h = ground arith

-- The flag for a store is not touched when a branch is covered.
reach_store-settle_states :
    (c bid : ℕ) (sids ps : List ℕ) (m : Memory) (p : ℕ)
    → ((settle_states c bid sids ps m).memory.heap p).reach_store ≡ (m.heap p).reach_store
unfolding settle_states forget
reach_store-settle_states c bid sids [] m p = refl
reach_store-settle_states c bid sids (q ∷ ps) m p =
    ground (
      arith,
      reach_store-settle_states c bid sids ps (set_state m q (forget bid sids (m.heap q))) p,
    )

reach_store-handle_fully_covered_branch :
    (prog : Program) (c bid : ℕ) (s : Searcher) (p : ℕ)
    → (deref (handle_fully_covered_branch prog c bid s) p).reach_store ≡ (deref s p).reach_store
unfolding handle_fully_covered_branch
reach_store-handle_fully_covered_branch prog c bid s p = reach_store-settle_states c bid _ _ _ p

memory-leave_branch :
    (place : List ℕ → List ℕ) (c : ℕ) (s : Searcher) → (leave_branch place c s).memory ≡ s.memory
unfolding leave_branch
memory-leave_branch place c s = ground arith

on_reach_branch-ne-none :
    (prog : Program) (c : ℕ) (s : Searcher)
    → (s.new_fully_covered_branch ≡ true → s.fully_covered_branches ≢ [])
    → on_reach_branch prog c s ≢ none
unfolding on_reach_branch
on_reach_branch-ne-none prog c s nonempty = elim (Bool-cases s.new_fully_covered_branch) [
  | inl e ↦ ground (arith, back-ne-none s.fully_covered_branches (nonempty e))
  | inr e ↦ ground arith
]

reach_store-on_reach_branch :
    (prog : Program) (c : ℕ) (s : Searcher) {t : Searcher}
    → on_reach_branch prog c s ≡ some t
    → (deref t c).reach_store ≡ (deref s c).reach_store
unfolding on_reach_branch
reach_store-on_reach_branch prog c s h = elim (Option-cases (back s.fully_covered_branches)) [
  | inl e ↦ ground (
    arith,
    ==_self c,
    memory-leave_branch (λ xs. push_back xs c) c
        (write s c (record (deref s c) {
          branch_infos = drop_target (deref s c).prev_branch (deref s c).branch_infos;
        })),
  )
  | inr (bid, e) ↦ ground (
    arith,
    ==_self c,
    memory-leave_branch (λ xs. push_back xs c) c
        (write s c (record (deref s c) {
          branch_infos = drop_target (deref s c).prev_branch (deref s c).branch_infos;
        })),
    memory-leave_branch (λ xs. c ∷ xs) c (handle_fully_covered_branch prog c bid s),
    reach_store-handle_fully_covered_branch prog c bid s c,
  )
]

reach_branch_step-ne-none :
    (prog : Program) (c : ℕ) (s : Searcher)
    → (s.new_fully_covered_branch ≡ true → s.fully_covered_branches ≢ [])
    → reach_branch_step prog c s ≢ none
unfolding reach_branch_step
reach_branch_step-ne-none prog c s nonempty =
    ground (arith, on_reach_branch-ne-none prog c s nonempty)

-- After a target branch was reached there is no store to look at.
reach_store_step-ne-none :
    (prog : Program) (c : ℕ) (s t : Searcher)
    → reach_branch_step prog c s ≡ some t
    → ((deref s c).reach_branch ≡ true → (deref s c).reach_store ≡ false)
    → ((deref s c).reach_store ≡ true
        → s.new_branch_num_from_store ≤ length (deref s c).branch_infos)
    → reach_store_step prog c t ≢ none
unfolding reach_branch_step reach_store_step on_reach_store
reach_store_step-ne-none prog c s t h apart counted =
    elim (Option-cases (on_reach_branch prog c s)) [
      | inl e ↦ ground arith
      | inr (u, e) ↦ ground (arith, ==_self c, reach_store-on_reach_branch prog c s e)
    ]

on_partly_covered-ne-none :
    (prog : Program) (c : ℕ) (s : Searcher) → on_partly_covered prog c s ≢ none
unfolding on_partly_covered
on_partly_covered-ne-none prog c s = ground (arith, back-ne-none s.target_branches)

follow-ne-none :
    (prog : Program) (c : ℕ) (added : List ℕ) (s : Searcher)
    → IsReady c s
    → follow prog c added s ≢ none
unfolding follow
follow-ne-none prog c added s r = >>=-ne-none _ _ (requeue-ne-none c added s r.selected) λ s1 e1.
    let q = requeue-Requeued c added s e1 in
    >>=-ne-none _ _ (reach_branch_step-ne-none prog c s1 (rw (q.flag, q.covered) r.covered))
      λ s2 e2.
        >>=-ne-none _ _
          (reach_store_step-ne-none prog c s1 s2 e2 (rw q.memory r.apart)
            (rw (q.memory, q.counted) r.counted))
          λ s3 e3. on_partly_covered-ne-none prog c s3

refill_targets-ne-none :
    (prog : Program) (c n : ℕ) (s : Searcher) → refill_targets prog (some c) n s ≢ none
unfolding refill_targets handle_partly
refill_targets-ne-none prog c zero s = λ e. cc
refill_targets-ne-none prog c (suc n) s = elim (Option-cases (back s.partly_covered_branches)) [
  | inl e ↦ rw (e, refill_targets) (λ k. cc)
  | inr (bid, e) ↦ rw (e, refill_targets) (refill_targets-ne-none prog c n _)
]

renew_targets-ne-none :
    (prog : Program) (c : ℕ) (s : Searcher) → renew_targets prog (some c) s ≢ none
unfolding renew_targets
renew_targets-ne-none prog c s =
    ground (arith, refill_targets-ne-none prog c s.target_branch_num (clear_targets s))

-- After an instruction of the selected state update runs through: it never takes the back of an
-- empty vector, erases what is not in a vector or starts a loop outside of one, where a newly
-- covered branch is recorded, the counter of new entries is within the entries of the state, and
-- the state did not reach a branch and a store at once. Whether it goes on with an iterator at
-- which it erased, as its loops do, is not part of this but kept in the flag stale.
pub update-ne-none :
    (prog : Program) (c : ℕ) (added removed : List ℕ) (s : Searcher)
    → IsReady c s
    → update prog (some c) added removed s ≢ none
unfolding update observe
update-ne-none prog c added removed s r =
    >>=-ne-none (observe prog (some c) added removed s) _
      (ground (arith, follow-ne-none prog c added s r))
      λ s1 e1. >>=-ne-none _ _ (renew_targets-ne-none prog c s1) λ s2 e2. some-ne-none _
