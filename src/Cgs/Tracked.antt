-- ===== src/Cgs/Tracked.antt =====
-- klee/lib/Core/Executor.cpp: where the branches stand that executeInstruction keeps track of.
use cgs.Prelude.{
  ℕ, ◌+◌, ◌≤◌, ◌≡◌, refl, ◌⊎◌, inl, inr, Bool, true, false, some, List, [], ◌∷◌, ◌==◌,
  if◌then◌else◌, mem, erase_first, push_back, back, count, count-erase_first, count-push_back,
  count-back_pop, count-not_mem, count-mem, length, length-append, Option-cases, Bool-cases, arith,
  is_nil, >>=-eq-some,
}
use cgs.Cgs.State.{Searcher}
use cgs.Cgs.Recording.{record_operands}
use cgs.Cgs.Tracking.{
  Executor, Observation, count_reach, mark_reach, is_unknown, count_found, enqueue_branch, set_dep,
  record_branch, find_branch, find_switch, replace_target, cover_branch, visit_br, visit_switch,
}

-- A branch is a target, waits to be one, or is fully covered, and only one of these; there are no
-- more targets than are allowed.
pub record IsTracked (s : Searcher) : Type 0 where
  pub once :
      (b : ℕ)
      → count b s.target_branches
          + count b s.partly_covered_branches
          + count b s.fully_covered_branches
        ≤ 1
  pub bounded : length s.target_branches ≤ s.target_branch_num

length-push_back {ℓ} : {A : Type ℓ} (xs : List A) (x : A) → length (push_back xs x) ≡ length xs + 1
length-push_back xs x = omega (arith, length-append xs (x ∷ []))

length-erase_first : (x : ℕ) (xs : List ℕ) → length (erase_first x xs) ≤ length xs
length-erase_first x [] = omega arith
length-erase_first x (y ∷ ys) = ground (arith, length-erase_first x ys)

length-erase_first-mem :
    (x : ℕ) (xs : List ℕ) → mem x xs ≡ true → length (erase_first x xs) + 1 ≡ length xs
length-erase_first-mem x [] h = cc
length-erase_first-mem x (y ∷ ys) h = ground (arith, length-erase_first-mem x ys)

enqueue_branch-IsTracked :
    (bid : ℕ) (s : Searcher)
    → IsTracked s
    → mem bid s.target_branches ≡ false
    → mem bid s.partly_covered_branches ≡ false
    → mem bid s.fully_covered_branches ≡ false
    → IsTracked (enqueue_branch bid s)
unfolding enqueue_branch
enqueue_branch-IsTracked bid s v h k l = record {
  once = λ b. ground (
    arith,
    v.once b,
    v.once bid,
    count-push_back b bid s.target_branches,
    count-push_back b bid s.partly_covered_branches,
    count-not_mem bid s.target_branches,
    count-not_mem bid s.partly_covered_branches,
    count-not_mem bid s.fully_covered_branches,
  );
  bounded = ground (arith, v.bounded, length-push_back s.target_branches bid);
}

replace_target-IsTracked :
    (bid : ℕ) (s : Searcher)
    → ((b : ℕ)
        → count b s.target_branches
            + count b s.partly_covered_branches
            + count b s.fully_covered_branches
          ≤ 1 + (if b == bid then 1 else 0))
    → length s.target_branches ≤ s.target_branch_num
    → mem bid s.target_branches ≡ true
    → IsTracked (replace_target bid s)
unfolding replace_target
replace_target-IsTracked bid s once bounded h =
    elim (Option-cases (back s.partly_covered_branches)) [
      | inl e ↦ record {
        once = λ b. ground (
          arith,
          once b,
          count-erase_first b bid s.target_branches,
          count-mem bid s.target_branches,
        );
        bounded = ground (arith, length-erase_first bid s.target_branches);
      }
      | inr (next, e) ↦ record {
        once = λ b. ground (
          arith,
          once b,
          count-erase_first b bid s.target_branches,
          count-mem bid s.target_branches,
          count-push_back b next (erase_first bid s.target_branches),
          count-back_pop b next s.partly_covered_branches e,
        );
        bounded = ground (
          arith,
          length-erase_first-mem bid s.target_branches,
          length-push_back (erase_first bid s.target_branches) next,
        );
      }
    ]

cover_branch-IsTracked : (bid : ℕ) (s : Searcher) → IsTracked s → IsTracked (cover_branch bid s)
unfolding cover_branch
cover_branch-IsTracked bid s v = elim (Bool-cases (mem bid s.fully_covered_branches)) [
  | inl e ↦ rw (e, cover_branch) v
  | inr e ↦ elim (Bool-cases (mem bid s.target_branches)) [
    | inl t ↦
        rw (e, t, cover_branch)
          (replace_target-IsTracked bid _
            (λ b. ground (
              arith,
              v.once b,
              count-push_back b bid s.fully_covered_branches,
              count-not_mem bid s.fully_covered_branches,
            ))
            v.bounded t)
    | inr t ↦
        rw (e, t, cover_branch)
          (record {
            once = λ b. ground (
              arith,
              v.once b,
              count-push_back b bid s.fully_covered_branches,
              count-erase_first b bid s.partly_covered_branches,
              count-not_mem bid s.fully_covered_branches,
              count-not_mem bid s.target_branches,
            );
            bounded = v.bounded;
          })
  ]
]

-- Two searchers that track the same branches.
record SameBranches (s t : Searcher) : Type 0 where
  targets : t.target_branches ≡ s.target_branches
  partly : t.partly_covered_branches ≡ s.partly_covered_branches
  fully : t.fully_covered_branches ≡ s.fully_covered_branches
  room : t.target_branch_num ≡ s.target_branch_num

IsTracked-of_same : (s t : Searcher) → SameBranches s t → IsTracked s → IsTracked t
IsTracked-of_same s t e v = record {
  once = λ b. rw (e.targets, e.partly, e.fully) (v.once b);
  bounded = rw (e.targets, e.room) v.bounded;
}

mark_reach-same : (c bid : ℕ) (x : Executor) → SameBranches x.searcher (mark_reach c bid x).searcher
unfolding mark_reach count_reach
mark_reach-same c bid x = ground arith

mark_reach-program : (c bid : ℕ) (x : Executor) → (mark_reach c bid x).program ≡ x.program
unfolding mark_reach count_reach
mark_reach-program c bid x = ground arith

count_found-searcher : (bid : ℕ) (x : Executor) → (count_found bid x).1.searcher ≡ x.searcher
unfolding count_found
count_found-searcher bid x = ground arith

-- `record_branch` leaves the searcher or puts the branch into a queue.
record_branch-cases :
    (bid : ℕ) (ob : Observation) (x y : Executor)
    → record_branch bid ob x ≡ some y
    → (y.searcher ≡ x.searcher) ⊎ (y.searcher ≡ enqueue_branch bid x.searcher)
unfolding record_branch set_dep
record_branch-cases bid ob x y h = elim (Option-cases ob.values) [
  | inl e ↦ inl (ground arith)
  | inr ((c1, c2), e) ↦
      let (d, k, l) =
        >>=-eq-some (record_operands ob.operands c1 c2 (x.program.dep bid)) _
          (rw (e, record_branch) at h) in
      inr (ground arith)
]

module _ (bid : ℕ) (x : Executor) (v : IsTracked x.searcher)
    (uncovered : mem bid x.searcher.fully_covered_branches ≡ false) where
  enqueue_unknown : is_unknown bid x ≡ true → IsTracked (enqueue_branch bid x.searcher)
  unfolding is_unknown
  enqueue_unknown h =
      enqueue_branch-IsTracked bid x.searcher v (ground arith) (ground arith) uncovered

  find_branch-IsTracked :
      (ob : Observation) (y : Executor) → find_branch bid ob x ≡ some y → IsTracked y.searcher
  unfolding find_branch
  find_branch-IsTracked ob y h = elim (Bool-cases (is_unknown bid x)) [
    | inr e ↦ let q : x ≡ y = ground arith in rw (← q) v
    | inl e ↦ elim (Bool-cases (count_found bid x).0) [
      | inr k ↦
          let q : (count_found bid x).1 ≡ y = ground arith in rw (← q, count_found-searcher bid x) v
      | inl k ↦ elim (record_branch-cases bid ob (count_found bid x).1 y (ground arith)) [
        | inl q ↦ rw (q, count_found-searcher bid x) v
        | inr q ↦ rw (q, count_found-searcher bid x) (enqueue_unknown e)
      ]
    ]
  ]

  find_switch-IsTracked : IsTracked (find_switch bid x).searcher
  unfolding find_switch
  find_switch-IsTracked = elim (Bool-cases (is_unknown bid x)) [
    | inr e ↦ rw (e, find_switch) v
    | inl e ↦ elim (Bool-cases (count_found bid x).0) [
      | inr k ↦ rw (e, k, find_switch, count_found-searcher bid x) v
      | inl k ↦ rw (e, k, find_switch, count_found-searcher bid x) (enqueue_unknown e)
    ]
  ]

-- At a concrete br every branch stays at most once among the target, partly covered and fully
-- covered branches together, and the targets within their number, where a branch that is not
-- covered on both sides was not recorded as fully covered.
pub visit_br-IsTracked :
    (c bid : ℕ) (full : Bool) (ob : Observation) (x y : Executor)
    → IsTracked x.searcher
    → (full ≡ false → mem bid x.searcher.fully_covered_branches ≡ false)
    → visit_br c bid full ob x ≡ some y
    → IsTracked y.searcher
unfolding visit_br
visit_br-IsTracked c bid true ob x y v u h =
    let m = mark_reach c bid x in
    let same = mark_reach-same c bid x in
    let q : record m { searcher = cover_branch bid m.searcher } ≡ y = ground arith in
    rw (← q)
      (cover_branch-IsTracked bid m.searcher (IsTracked-of_same x.searcher m.searcher same v))
visit_br-IsTracked c bid false ob x y v u h =
    let m = mark_reach c bid x in
    let same = mark_reach-same c bid x in
    find_branch-IsTracked bid m (IsTracked-of_same x.searcher m.searcher same v)
      (rw same.fully (u refl)) ob y h

-- At a concrete switch every branch stays at most once among the target, partly covered and fully
-- covered branches together, and the targets within their number, where a switch with cases left
-- was not recorded as fully covered.
pub visit_switch-IsTracked :
    (c bid value : ℕ) (x : Executor)
    → IsTracked x.searcher
    → (is_nil (erase_first value (x.program.dep bid).un_covered_values) ≡ false
        → mem bid x.searcher.fully_covered_branches ≡ false)
    → IsTracked (visit_switch c bid value x).searcher
unfolding visit_switch set_dep
visit_switch-IsTracked c bid value x v u =
    let m = mark_reach c bid x in
    let d = m.program.dep bid in
    let left = erase_first value d.un_covered_values in
    let same = mark_reach-same c bid x in
    let w = IsTracked-of_same x.searcher m.searcher same v in
    let u' : is_nil left ≡ false → mem bid m.searcher.fully_covered_branches ≡ false =
      rw (same.fully, mark_reach-program c bid x) u in
    elim (Bool-cases (is_nil left)) [
      | inl e ↦ rw (e, visit_switch) (cover_branch-IsTracked bid m.searcher w)
      | inr e ↦
          rw (e, visit_switch)
            (find_switch-IsTracked bid (set_dep bid (record d { un_covered_values = left }) m) w
              (u' e))
    ]
