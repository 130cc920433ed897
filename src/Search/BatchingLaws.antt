-- ===== src/Search/BatchingLaws.antt =====
-- klee/lib/Core/Searcher.cpp: BatchingSearcher goes on with a state that its base holds.
use cgs.Prelude.{
  ℕ, ◌+◌, ◌-◌, ◌%◌, ◌^◌, ◌<◌, ◌≤◌, ◌≡◌, ◌≢◌, ap, ◌⊎◌, inl, inr, true, Option, none, some, List,
  if◌then◌else◌, >>=-eq-some, Bool-cases, Option-cases, mem, count-not_mem, arith,
}
use cgs.Search.Interface.{SearcherOps, SearcherLaws}
use cgs.Search.Batching.{
  Batching, Clock, is_over, raise_budget, start_batch, batching_select, drop_last, batching_update,
}

lose_upper : (i : ℕ) → 2 ^ 32 ≤ i → i % 2 ^ 32 + 2 ^ 32 ≤ i
lose_upper i h = omega arith

module _ {S : Type 0} (base : SearcherOps S) (laws : SearcherLaws base) (enlarge : ℕ → ℕ) where
  -- There is no running batch, or its state is one that the base holds.
  unfoldable pub LastIsHeld : Batching base enlarge → Type 0
  LastIsHeld m =
      (m.last_state ≡ none) ⊎ ((p : ℕ) × (m.last_state ≡ some p) × (0 < base.holds p m.searcher))

  held-start_batch :
      (t : Clock) (m m' : Batching base enlarge) (p : ℕ)
      → start_batch base enlarge t m ≡ some (p, m')
      → (m'.last_state ≡ some p) × (m'.searcher ≡ m.searcher) × (0 < base.holds p m.searcher)
  unfolding start_batch
  held-start_batch t m m' p h =
      let (q, e, k) = >>=-eq-some (base.select_state m.searcher) _ h in
      (ground arith, ground arith, ground (arith, laws.select-holds m.searcher q e))

  budget-start_batch :
      (t : Clock) (m m' : Batching base enlarge) (p : ℕ)
      → start_batch base enlarge t m ≡ some (p, m')
      → m'.time_budget ≡ m.time_budget
  unfolding start_batch
  budget-start_batch t m m' p h =
      let (q, e, k) = >>=-eq-some (base.select_state m.searcher) _ h in ground arith

  searcher-raise_budget :
      (t : Clock) (m : Batching base enlarge)
      → (raise_budget base enlarge t m).searcher ≡ m.searcher
  unfolding raise_budget
  searcher-raise_budget t m = ground arith

  held-batching_select :
      (t : Clock) (m m' : Batching base enlarge) (p : ℕ)
      → LastIsHeld m
      → batching_select base enlarge t m ≡ some (p, m')
      → (m'.last_state ≡ some p) × (0 < base.holds p m'.searcher)
  unfolding batching_select LastIsHeld
  held-batching_select t m m' p (inl e) h = ground (arith, held-start_batch t m m' p)
  held-batching_select t m m' p (inr (last, e, held)) h =
      ground
        (arith, held-start_batch t (raise_budget base enlarge t m) m' p, searcher-raise_budget t m)

  -- If the state of the running batch is held by the base, which keeps the laws, then a state that
  -- BatchingSearcher::selectState gives is held by the base and is the state of the batch from
  -- then on.
  pub batching_select-LastIsHeld :
      (t : Clock) (m m' : Batching base enlarge) (p : ℕ)
      → LastIsHeld m
      → batching_select base enlarge t m ≡ some (p, m')
      → (0 < base.holds p m'.searcher) × (m'.last_state ≡ some p) × LastIsHeld m'
  unfolding LastIsHeld
  batching_select-LastIsHeld t m m' p v h =
      let (last, held) = held-batching_select t m m' p v h in (held, last, inr (p, last, held))

  -- If the state of the running batch is held by the base, which keeps the laws, and
  -- BatchingSearcher::update runs through, then it still is, and the batch is dropped exactly if
  -- its state is removed.
  pub batching_update-LastIsHeld :
      (cur : Option ℕ) (added removed : List ℕ) (m m' : Batching base enlarge)
      → LastIsHeld m
      → batching_update base enlarge cur added removed m ≡ some m'
      → LastIsHeld m'
        × (m'.last_state ≡ elim m.last_state [
          | none ↦ none
          | some last ↦ if mem last removed then none else some last
        ])
  unfolding batching_update drop_last LastIsHeld
  batching_update-LastIsHeld cur added removed m m' (inl l) h =
      let n = drop_last base enlarge removed m in
      let (s, e, k) = >>=-eq-some (base.update cur added removed n.searcher) _ h in
      (inl (ground arith), ground arith)
  batching_update-LastIsHeld cur added removed m m' (inr (last, l, held)) h =
      let n = drop_last base enlarge removed m in
      let (s, e, k) = >>=-eq-some (base.update cur added removed n.searcher) _ h in
      elim (Bool-cases (mem last removed)) [
        | inl i ↦ (inl (ground arith), ground arith)
        | inr i ↦ (
          inr (
            last,
            ground arith,
            ground (
              arith,
              count-not_mem last removed i,
              laws.holds-update cur added removed m.searcher s (ground arith) last,
            ),
          ),
          ground arith,
        )
      ]

  -- A batching searcher that has no time budget, for which the factor 1.1 gives 0 from 0, and
  -- whose batch is over, has a time budget after the selection: the time the batch took, if that
  -- is not 0.
  pub batching_select-budget :
      (t : Clock) (m m' : Batching base enlarge) (p : ℕ)
      → m.time_budget ≡ 0
      → enlarge 0 ≡ 0
      → m.last_state ≢ none
      → is_over base enlarge t m ≡ true
      → m.last_start_time < t.later
      → batching_select base enlarge t m ≡ some (p, m')
      → m'.time_budget ≡ t.later - m.last_start_time
  unfolding batching_select raise_budget
  batching_select-budget t m m' p zero_budget zero_stays going over later h =
      elim (Option-cases m.last_state) [
        | inl e ↦ absurd (going e)
        | inr (last, e) ↦
            let raised : (raise_budget base enlarge t m).time_budget ≡ t.later - m.last_start_time =
              ground (arith, zero_budget, zero_stays, later, ap enlarge zero_budget) in
            ground (arith, raised, budget-start_batch t (raise_budget base enlarge t m) m' p)
      ]

  over-instructions :
      (t : Clock) (m : Batching base enlarge)
      → 0 < m.instruction_budget
      → m.instruction_budget < 2 ^ 32
      → m.last_start_instructions + 2 ^ 32 ≤ t.instructions
      → is_over base enlarge t m ≡ true
  unfolding is_over
  over-instructions t m some_budget bounded far = ground arith

  -- From 2 ^ 32 instructions on a batch that starts is over at once, whatever its budget of
  -- instructions is, below 2 ^ 32 and not 0: the count at its start loses the upper bits.
  pub start_batch-over :
      (t later : Clock) (m m' : Batching base enlarge) (p : ℕ)
      → 0 < m.instruction_budget
      → m.instruction_budget < 2 ^ 32
      → 2 ^ 32 ≤ t.instructions
      → t.instructions ≤ later.instructions
      → start_batch base enlarge t m ≡ some (p, m')
      → is_over base enlarge later m' ≡ true
  unfolding start_batch
  start_batch-over t later m m' p some_budget bounded many after h =
      let (q, e, k) = >>=-eq-some (base.select_state m.searcher) _ h in
      over-instructions later m' (ground arith) (ground arith)
        (ground (arith, lose_upper t.instructions many))
