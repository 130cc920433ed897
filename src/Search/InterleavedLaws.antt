-- ===== src/Search/InterleavedLaws.antt =====
-- klee/lib/Core/Searcher.cpp: InterleavedSearcher takes turns, and keeps its searchers in step.
use cgs.Prelude.{
  ℕ, zero, suc, ◌+◌, ◌-◌, ◌≡◌, ◌≢◌, ◌<◌, ◌≤◌, refl, ap, subst, Option, none, some, List, [], ◌∷◌,
  ◌==◌, if◌then◌else◌, >>=-eq-some, All, count, get_elem?, length, arith,
}
use cgs.Search.Interface.{SearcherOps, SearcherLaws}
use cgs.Search.Interleaved.{Interleaved, interleaved_select, update_each, interleaved_update}

module _ {S : Type 0} (base : SearcherOps S) where
  -- The index is that of a searcher, counted from 1.
  pub record IsInRange (m : Interleaved base) : Type 0 where
    pub above : 0 < m.index
    pub below : m.index ≤ length m.searchers

  get_elem?-in_range : (ss : List S) (i : ℕ) → i < length ss → get_elem? ss i ≢ none
  get_elem?-in_range [] i h = absurd (omega arith)
  get_elem?-in_range (s ∷ ss) zero h = λ e. cc
  get_elem?-in_range (s ∷ ss) (suc i) h = get_elem?-in_range ss i (omega arith)

  -- If InterleavedSearcher::selectState runs through with the index in range, then it stays in
  -- range, the searchers are unchanged, the turn goes to the searcher before or from the first to
  -- the last, and the state is what the searcher whose turn it was selects.
  pub interleaved_select-IsInRange :
      (m m' : Interleaved base) (p : ℕ)
      → IsInRange m
      → interleaved_select base m ≡ some (p, m')
      → IsInRange m'
        × (m'.searchers ≡ m.searchers)
        × (m'.index ≡ (if m.index == 1 then length m.searchers else m.index - 1))
        × ((s : S) × (get_elem? m.searchers (m.index - 1) ≡ some s)
            × (base.select_state s ≡ some p))
  unfolding interleaved_select
  interleaved_select-IsInRange m m' p v h =
      let (s, e, k) = >>=-eq-some (get_elem? m.searchers (m.index - 1)) _ h in
      let (q, l, r) = >>=-eq-some (base.select_state s) _ k in
      (
        record {
          above = ground (arith, v.above, v.below);
          below = ground (arith, v.above, v.below);
        },
        ground arith,
        ground (arith, v.above),
        (s, e, ground arith),
      )

  module _ (laws : SearcherLaws base) (x : ℕ) where
    agree-update_each :
        (cur : Option ℕ) (added removed : List ℕ) (n : ℕ) (ss ts : List S)
        → All (λ s. base.holds x s ≡ n) ss
        → update_each base cur added removed ss ≡ some ts
        → All (λ s. base.holds x s ≡ n + count x added - count x removed) ts
          × (length ts ≡ length ss)
    unfolding update_each
    agree-update_each cur added removed n [] ts agree h =
        let same : [] ≡ ts = cc in
        subst
          (λ l. All (λ s. base.holds x s ≡ n + count x added - count x removed) l × (length l ≡ 0))
          same (tt, refl)
    agree-update_each cur added removed n (s ∷ ss) ts agree h =
        let (t, e, k) = >>=-eq-some (base.update cur added removed s) _ h in
        let (us, l, r) = >>=-eq-some (update_each base cur added removed ss) _ k in
        let (all, same) = agree-update_each cur added removed n ss us agree.1 l in
        let joined : t ∷ us ≡ ts = cc in
        let kept : base.holds x t ≡ n + count x added - count x removed =
          ground (arith, laws.holds-update cur added removed s t e x, agree.0) in
        subst
          (λ l.
            All (λ s. base.holds x s ≡ n + count x added - count x removed) l
            × (length l ≡ suc (length ss)))
          joined ((kept, all), ap suc same)

    -- If InterleavedSearcher::update runs through over searchers that keep the laws and hold a
    -- state equally often, then each holds it as often as before, with what is added and without
    -- what is removed, and the index stays in range.
    pub interleaved_update-agree :
        (cur : Option ℕ) (added removed : List ℕ) (n : ℕ) (m m' : Interleaved base)
        → IsInRange m
        → All (λ s. base.holds x s ≡ n) m.searchers
        → interleaved_update base cur added removed m ≡ some m'
        → IsInRange m'
          × All (λ s. base.holds x s ≡ n + count x added - count x removed) m'.searchers
    unfolding interleaved_update
    interleaved_update-agree cur added removed n m m' v agree h =
        let (ts, e, k) = >>=-eq-some (update_each base cur added removed m.searchers) _ h in
        let (all, same) = agree-update_each cur added removed n m.searchers ts agree e in
        let joined : ts ≡ m'.searchers = cc in
        (
          record { above = ground (arith, v.above); below = ground (arith, v.below, same) },
          subst (All (λ s. base.holds x s ≡ n + count x added - count x removed)) joined all,
        )
