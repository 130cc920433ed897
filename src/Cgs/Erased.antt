-- ===== src/Cgs/Erased.antt =====
-- klee/lib/Core/Searcher.cpp: when CGSSearcher::update goes on with an iterator at which it erased.
use cgs.Prelude.{
  ℕ, zero, suc, ◌+◌, ◌-◌, ◌≤◌, ◌≡◌, refl, ap, ◌∙◌, true, false, not, ◌||◌, some, List, [], ◌∷◌, ltb,
  length, length-append, take, drop, arith, ==_self, mem, Option-cases, >>=-eq-some, Bool-cases,
  inl, inr, subst, push_back, erase_first,
}
use cgs.Cgs.State.{BranchInfo, Program, Memory, Searcher, deref}
use cgs.Cgs.Handlers.{move_to_branch}
use cgs.Cgs.StoreValue.{is_new_store_value}
use cgs.Cgs.Update.{
  requeue, check_infos, on_reach_store, on_partly_covered, reach_branch_step, reach_store_step,
  follow, observe, renew_targets, add_states, remove_states, update,
}
use cgs.Cgs.Defined.{IsReady, update-ne-none}

-- Nothing but a store is waiting to be looked at.
pub record IsQuiet (c : ℕ) (s : Searcher) : Type 0 where
  pub no_branch : (deref s c).reach_branch ≡ false
  pub no_partly : s.new_partly_covered_branch ≡ false
  pub no_renewal : s.update_target_branch ≡ false

length-parts :
    (n : ℕ) (is : List BranchInfo)
    → n ≤ length is
    → (length (take n is) ≡ n) × (n + length (drop n is) ≡ length is)
length-parts zero is h = (refl, omega arith)
length-parts (suc n) [] h = absurd (omega arith)
length-parts (suc n) (i ∷ is) h =
    let (p, q) = length-parts n is (omega arith) in (omega (arith, p), omega (arith, q))

-- The loop over the entries goes on with an erased iterator exactly if it drops one of them.
stale-check_infos :
    (prog : Program) (c : ℕ) (is : List BranchInfo) (s : Searcher)
    → let r = check_infos prog c is s in
      (r.1.stale ≡ (s.stale || ltb (length r.0) (length is)))
      × (length r.0 ≤ length is)
      × (r.1.update_target_branch ≡ s.update_target_branch)
      × (r.1.new_partly_covered_branch ≡ s.new_partly_covered_branch)
unfolding check_infos move_to_branch
stale-check_infos prog c [] s = (ground arith, omega arith, refl, refl)
stale-check_infos prog c (i ∷ is) s =
    let (new, m) = is_new_store_value prog s.memory c i.target_branch_id i.reach_store_id in
    let t = record s { memory = m; stale = s.stale || not new } in
    let moved = stale-check_infos prog c is (move_to_branch c t) in
    let left = stale-check_infos prog c is t in
    (
      ground (arith, moved, left),
      ground (arith, moved, left),
      ground (arith, moved, left),
      ground (arith, moved, left),
    )

-- The step from `s` to `t` went on with an iterator at which it erased exactly if the state has fewer
-- entries after it.
abbrev pub ErasesBetween : ℕ → Searcher → Searcher → Type 0
ErasesBetween c s t =
    t.stale ≡ (s.stale || ltb (length (deref t c).branch_infos) (length (deref s c).branch_infos))

record Step (c : ℕ) (s t : Searcher) : Type 0 where
  erases : ErasesBetween c s t
  renewal : t.update_target_branch ≡ s.update_target_branch
  partly : t.new_partly_covered_branch ≡ s.new_partly_covered_branch

same-Step : (c : ℕ) (s : Searcher) → Step c s s
same-Step c s = record { erases = ground arith; renewal = refl; partly = refl }

on_reach_store-Step :
    (prog : Program) (c : ℕ) (s t : Searcher)
    → s.new_branch_num_from_store ≤ length (deref s c).branch_infos
    → on_reach_store prog c s ≡ some t
    → Step c s t
unfolding on_reach_store
on_reach_store-Step prog c s t h e =
    let infos = (deref s c).branch_infos in
    let start = length infos - s.new_branch_num_from_store in
    let r = check_infos prog c (drop start infos) s in
    let checked = stale-check_infos prog c (drop start infos) s in
    let parts = length-parts start infos (omega arith) in
    let sum = length-append (take start infos) r.0 in
    record {
      erases = ground (arith, checked, parts, sum, ==_self c);
      renewal = ground (arith, checked);
      partly = ground (arith, checked);
    }

reach_store_step-Step :
    (prog : Program) (c : ℕ) (s t : Searcher)
    → ((deref s c).reach_store ≡ true
        → s.new_branch_num_from_store ≤ length (deref s c).branch_infos)
    → reach_store_step prog c s ≡ some t
    → Step c s t
unfolding reach_store_step
reach_store_step-Step prog c s t h e = elim (Bool-cases (deref s c).reach_store) [
  | inl p ↦ on_reach_store-Step prog c s t (h p) (ground arith)
  | inr p ↦ (let q : s ≡ t = ground arith in subst (Step c s) q (same-Step c s))
]

-- What only moves states between the vectors.
record Moves (s t : Searcher) : Type 0 where
  memory : t.memory ≡ s.memory
  stale : t.stale ≡ s.stale

requeue-Moves :
    (c : ℕ) (added : List ℕ) (s t : Searcher)
    → requeue c added s ≡ some t
    → Moves s t
      × (t.update_target_branch ≡ s.update_target_branch)
      × (t.new_partly_covered_branch ≡ s.new_partly_covered_branch)
      × (t.new_branch_num_from_store ≡ s.new_branch_num_from_store)
unfolding requeue
requeue-Moves c added s t h = (
  record { memory = ground arith; stale = ground arith },
  ground arith,
  ground arith,
  ground arith,
)

add_states-Moves :
    (prog : Program) (c : ℕ) (ps : List ℕ) (s : Searcher) → Moves s (add_states prog (some c) ps s)
unfolding add_states
add_states-Moves prog c [] s = record { memory = refl; stale = refl }
add_states-Moves prog c (p ∷ ps) s =
    let b = add_states-Moves prog c ps (record s { branch_states = push_back s.branch_states p }) in
    let a = add_states-Moves prog c ps (record s { states = push_back s.states p }) in
    record { memory = ground (arith, b.memory, a.memory); stale = ground (arith, b.stale, a.stale) }

remove_states-Moves : (ps : List ℕ) (s : Searcher) → Moves s (remove_states ps s)
unfolding remove_states
remove_states-Moves [] s = record { memory = refl; stale = refl }
remove_states-Moves (p ∷ ps) s =
    let b = remove_states-Moves ps (record s { branch_states = erase_first p s.branch_states }) in
    let a = remove_states-Moves ps (record s { states = erase_first p s.states }) in
    record { memory = ground (arith, b.memory, a.memory); stale = ground (arith, b.stale, a.stale) }

moved-Step :
    (c : ℕ) (s s1 t : Searcher)
    → Moves s s1
    → s1.update_target_branch ≡ s.update_target_branch
    → s1.new_partly_covered_branch ≡ s.new_partly_covered_branch
    → Step c s1 t
    → Step c s t
moved-Step c s s1 t m renewal partly step = record {
  erases = cc (step.erases, m.memory, m.stale);
  renewal = step.renewal ∙ renewal;
  partly = step.partly ∙ partly;
}

counted_moved :
    (c : ℕ) (s s1 : Searcher)
    → Moves s s1
    → s1.new_branch_num_from_store ≡ s.new_branch_num_from_store
    → ((deref s c).reach_store ≡ true
        → s.new_branch_num_from_store ≤ length (deref s c).branch_infos)
    → (deref s1 c).reach_store ≡ true
    → s1.new_branch_num_from_store ≤ length (deref s1 c).branch_infos
counted_moved c s s1 m number h =
    let e : deref s1 c ≡ deref s c = ap (λ (x : Memory). x.heap c) m.memory in rw (number, e) h

no_branch_step :
    (prog : Program) (c : ℕ) (s t : Searcher)
    → (deref s c).reach_branch ≡ false
    → reach_branch_step prog c s ≡ some t
    → s ≡ t
unfolding reach_branch_step
no_branch_step prog c s t h e = ground arith

no_partly_step :
    (prog : Program) (c : ℕ) (s t : Searcher)
    → s.new_partly_covered_branch ≡ false
    → on_partly_covered prog c s ≡ some t
    → s ≡ t
unfolding on_partly_covered
no_partly_step prog c s t h e = ground arith

no_renewal_step :
    (prog : Program) (c : ℕ) (s t : Searcher)
    → s.update_target_branch ≡ false
    → renew_targets prog (some c) s ≡ some t
    → s ≡ t
unfolding renew_targets
no_renewal_step prog c s t h e = ground arith

follow-Step :
    (prog : Program) (c : ℕ) (added : List ℕ) (s t : Searcher)
    → IsReady c s
    → IsQuiet c s
    → follow prog c added s ≡ some t
    → Step c s t
unfolding follow
follow-Step prog c added s t r q h =
    let (s1, e1, h1) = >>=-eq-some (requeue c added s) _ h in
    let (m, renewal, partly, number) = requeue-Moves c added s s1 e1 in
    let (s2, e2, h2) = >>=-eq-some (reach_branch_step prog c s1) _ h1 in
    let same2 : s1 ≡ s2 =
      no_branch_step prog c s1 s2
        (ap (λ (x : Memory). (x.heap c).reach_branch) m.memory ∙ q.no_branch) e2 in
    let (s3, e3, h3) = >>=-eq-some (reach_store_step prog c s2) _ h2 in
    let step : Step c s1 s3 =
      reach_store_step-Step prog c s1 s3 (counted_moved c s s1 m number r.counted) (rw same2 e3) in
    let same3 : s3 ≡ t = no_partly_step prog c s3 t (step.partly ∙ partly ∙ q.no_partly) h3 in
    subst (Step c s) same3 (moved-Step c s s1 s3 m renewal partly step)

observe-Step :
    (prog : Program) (c : ℕ) (added removed : List ℕ) (s t : Searcher)
    → IsReady c s
    → IsQuiet c s
    → observe prog (some c) added removed s ≡ some t
    → Step c s t
unfolding observe
observe-Step prog c added removed s t r q h = elim (Bool-cases (mem c removed)) [
  | inl p ↦ (let e : s ≡ t = ground arith in subst (Step c s) e (same-Step c s))
  | inr p ↦ follow-Step prog c added s t r q (ground arith)
]

update-ErasesBetween :
    (prog : Program) (c : ℕ) (added removed : List ℕ) (s t : Searcher)
    → IsReady c s
    → IsQuiet c s
    → update prog (some c) added removed s ≡ some t
    → ErasesBetween c s t
unfolding update
update-ErasesBetween prog c added removed s t r q h =
    let (s1, e1, h1) = >>=-eq-some (observe prog (some c) added removed s) _ h in
    let step = observe-Step prog c added removed s s1 r q e1 in
    let (s2, e2, h2) = >>=-eq-some (renew_targets prog (some c) s1) _ h1 in
    let same : s1 ≡ s2 = no_renewal_step prog c s1 s2 (step.renewal ∙ q.no_renewal) e2 in
    let a = add_states-Moves prog c added s2 in
    let b = remove_states-Moves removed (add_states prog (some c) added s2) in
    cc (step.erases, same, a.memory, b.memory, a.stale, b.stale, h2)

-- After such an instruction update runs through, and goes on with an iterator at which it erased
-- exactly if the state has fewer entries then.
pub update-erases :
    (prog : Program) (c : ℕ) (added removed : List ℕ) (s : Searcher)
    → IsReady c s
    → IsQuiet c s
    → (t : Searcher) × (update prog (some c) added removed s ≡ some t) × ErasesBetween c s t
update-erases prog c added removed s r q =
    elim (Option-cases (update prog (some c) added removed s)) [
      | inl e ↦ absurd (update-ne-none prog c added removed s r e)
      | inr (t, e) ↦ (t, e, update-ErasesBetween prog c added removed s t r q e)
    ]
