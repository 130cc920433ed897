-- ===== src/Search/DeepeningLaws.antt =====
-- klee/lib/Core/Searcher.cpp: IterativeDeepeningTimeSearcher keeps its states.
use cgs.Prelude.{
  ℕ, ◌+◌, ◌-◌, ◌<◌, ◌≤◌, ◌≡◌, refl, ◌∙◌, inl, inr, false, ◌&&◌, Option, none, some, List, [], ◌∷◌,
  ◌==◌, ltb, if◌then◌else◌, >>=-eq-some, Option-cases, mem, erase_first, count, count-erase_first,
  count-mem, count-not_mem, arith,
}
use cgs.Search.Interface.{SearcherOps, SearcherLaws}
use cgs.Search.Deepening.{
  Deepening, insert_paused, remove_every, filter_removed, pause_current, fill_paused,
  deepening_update, deepening_empty, all_held,
}

count-insert_paused :
    (x p : ℕ) (ps : List ℕ)
    → count p ps ≡ 0
    → count x (insert_paused p ps) ≡ count x ps + (if x == p then 1 else 0)
unfolding insert_paused
count-insert_paused x p [] h = ground arith
count-insert_paused x p (q ∷ qs) h = ground (arith, count-insert_paused x p qs)

count-remove_every :
    (x p : ℕ) (xs : List ℕ) → count x (remove_every p xs) ≡ (if x == p then 0 else count x xs)
unfolding remove_every
count-remove_every x p [] = ground arith
count-remove_every x p (y ∷ ys) = ground (arith, count-remove_every x p ys)

-- A paused state that is removed leaves the pause, and the base is not told of it.
pub count-paused :
    (x : ℕ) (rs paused alt : List ℕ)
    → count x paused ≤ 1
    → count x (filter_removed rs paused alt).0 ≡ (if mem x rs then 0 else count x paused)
unfolding filter_removed
count-paused x [] paused alt h = ground arith
count-paused x (r ∷ rs) paused alt h = ground (
  arith,
  count-paused x rs (erase_first r paused) (remove_every r alt),
  count-paused x rs paused alt,
  count-erase_first x r paused,
  count-not_mem r paused,
)

pub count-told :
    (x : ℕ) (rs paused alt : List ℕ)
    → count x paused ≤ 1
    → count x (filter_removed rs paused alt).1
      ≡ (if mem x rs && ltb 0 (count x paused) then 0 else count x alt)
unfolding filter_removed
count-told x [] paused alt h = ground arith
count-told x (r ∷ rs) paused alt h = ground (
  arith,
  count-told x rs (erase_first r paused) (remove_every r alt),
  count-told x rs paused alt,
  count-erase_first x r paused,
  count-remove_every x r alt,
  count-not_mem r paused,
  count-mem r paused,
)

module _ {S : Type 0} (base : SearcherOps S) (laws : SearcherLaws base) where
  all_held-pause_current :
      (x elapsed : ℕ) (cur : Option ℕ) (removed : List ℕ) (m n : Deepening base)
      → ((c : ℕ)
          → cur ≡ some c
          → mem c removed ≡ false
          → (0 < base.holds c m.searcher) × (count c m.paused_states ≡ 0))
      → pause_current base elapsed cur removed m ≡ some n
      → all_held base x n ≡ all_held base x m
  unfolding pause_current
  all_held-pause_current x elapsed none removed m n k h = ground arith
  all_held-pause_current x elapsed (some c) removed m n k h =
      elim (Option-cases (base.update none [] (c ∷ []) m.searcher)) [
        | inl e ↦ ground arith
        | inr (s, e) ↦ ground (
          arith,
          laws.holds-update none [] (c ∷ []) m.searcher s e x,
          count-insert_paused x c m.paused_states,
          k c refl,
        )
      ]

  all_held-fill_paused :
      (x : ℕ) (m n : Deepening base)
      → fill_paused base m ≡ some n
      → all_held base x n ≡ all_held base x m
  unfolding fill_paused
  all_held-fill_paused x m n h =
      elim (Option-cases (base.update none m.paused_states [] m.searcher)) [
        | inl e ↦ ground arith
        | inr (s, e) ↦ ground (
          arith,
          laws.holds-update none m.paused_states [] m.searcher s e x,
          laws.empty-holds m.searcher,
        )
      ]

  empty-fill_paused :
      (m n : Deepening base)
      → fill_paused base m ≡ some n
      → deepening_empty base n ≡ base.empty n.searcher
  unfolding fill_paused deepening_empty
  empty-fill_paused m n h = elim (Option-cases (base.update none m.paused_states [] m.searcher)) [
    | inl e ↦ ground arith
    | inr (s, e) ↦ ground arith
  ]

  -- If IterativeDeepeningTimeSearcher::update runs through over a searcher that keeps the laws,
  -- where each state is held at most once, an added one was not held and the current one is in the
  -- base, then the base and the pause together change by what is added and removed, and the whole
  -- is empty exactly if the base is.
  pub all_held-deepening_update :
      (elapsed : ℕ) (cur : Option ℕ) (added removed : List ℕ) (m n : Deepening base)
      → ((x : ℕ) → all_held base x m + count x added ≤ 1)
      → ((c : ℕ) → cur ≡ some c → 0 < base.holds c m.searcher)
      → deepening_update base elapsed cur added removed m ≡ some n
      → ((x : ℕ) → all_held base x n ≡ all_held base x m + count x added - count x removed)
        × (deepening_empty base n ≡ base.empty n.searcher)
  unfolding deepening_update
  all_held-deepening_update elapsed cur added removed m n once here h =
      let paused = (filter_removed removed m.paused_states removed).0 in
      let alt = (filter_removed removed m.paused_states removed).1 in
      let (s, e, k) = >>=-eq-some (base.update cur added alt m.searcher) _ h in
      let m1 : Deepening base = record m { searcher = s; paused_states = paused } in
      let (m2, l, r) = >>=-eq-some (pause_current base elapsed cur removed m1) _ k in
      (
        λ x.
            all_held-fill_paused x m2 n r
            ∙ all_held-pause_current x elapsed cur removed m1 m2
                (λ c i j. (
                  ground (
                    arith,
                    once c,
                    here c i,
                    laws.holds-update cur added alt m.searcher s e c,
                    count-told c removed m.paused_states removed,
                    count-not_mem c removed j,
                  ),
                  ground (arith, once c, here c i, count-paused c removed m.paused_states removed),
                ))
                l
            ∙ ground (
              arith,
              once x,
              laws.holds-update cur added alt m.searcher s e x,
              count-told x removed m.paused_states removed,
              count-paused x removed m.paused_states removed,
              count-not_mem x removed,
              count-mem x removed,
            ),
        empty-fill_paused m2 n r,
      )
