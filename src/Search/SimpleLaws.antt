-- ===== src/Search/SimpleLaws.antt =====
-- klee/lib/Core/Searcher.cpp: the laws of DFSSearcher, BFSSearcher and RandomSearcher.
use cgs.Prelude.{
  ℕ, ◌+◌, ◌-◌, ◌%◌, ◌≤◌, ◌<◌, ◌≡◌, ◌≢◌, refl, inl, inr, true, Option, none, some, List, [], ◌∷◌,
  ◌++◌, ◌==◌, if◌then◌else◌, >>=-eq-some, >>=-ne-none, some-ne-none, erase_first, erase_found, back,
  front, is_nil, count, length, zero, suc, get_elem?, arith, Option-cases, count-append,
  count-erase_first, count-push_back, count-mem, mem-of_count, count-back_pop, ==_self,
}
use cgs.Search.Interface.{SearcherLaws}
use cgs.Search.Simple.{
  remove_back, remove_front, remove_all, dfs_update, dfs, bfs_requeue, bfs_update, bfs,
  random_update, random_state,
}

-- A way to remove one state takes one occurrence away, and works wherever there is one.
record Removes (remove : ℕ → List ℕ → Option (List ℕ)) : Type 0 where
  takes_one :
      (p : ℕ) (xs ys : List ℕ)
      → remove p xs ≡ some ys
      → (x : ℕ) → (count x ys ≡ count x xs - (if x == p then 1 else 0))
  works : (p : ℕ) (xs : List ℕ) → 0 < count p xs → remove p xs ≢ none

erase_found-Removes : Removes erase_found
erase_found-Removes = record {
  takes_one = λ p xs ys h x. ground (arith, count-erase_first x p xs);
  works = λ p xs h. ground (arith, mem-of_count p xs h);
}

back_cons-ne-none : (x : ℕ) (xs : List ℕ) → back (x ∷ xs) ≢ none
back_cons-ne-none x [] = some-ne-none x
back_cons-ne-none x (y ∷ ys) = back_cons-ne-none y ys

pub back-ne-none : (p : ℕ) (xs : List ℕ) → 0 < count p xs → back xs ≢ none
back-ne-none p [] h = absurd (omega arith)
back-ne-none p (x ∷ []) h = some-ne-none x
back-ne-none p (x ∷ y ∷ ys) h = back_cons-ne-none y ys

remove_back-Removes : Removes remove_back
unfolding remove_back
remove_back-Removes = record {
  takes_one = λ p xs ys h x. elim (Option-cases (back xs)) [
    | inl e ↦ ground arith
    | inr (last, e) ↦ ground (arith, count-erase_first x p xs, count-back_pop x last xs e)
  ];
  works = λ p xs h. elim (Option-cases (back xs)) [
    | inl e ↦ absurd (back-ne-none p xs h e)
    | inr (last, e) ↦ ground (arith, mem-of_count p xs h)
  ];
}

takes_one-remove_front :
    (p : ℕ) (xs ys : List ℕ)
    → remove_front p xs ≡ some ys
    → (x : ℕ) → (count x ys ≡ count x xs - (if x == p then 1 else 0))
unfolding remove_front
takes_one-remove_front p [] ys h x = cc
takes_one-remove_front p (z ∷ zs) ys h x = ground (arith, count-erase_first x p (z ∷ zs))

works-remove_front : (p : ℕ) (xs : List ℕ) → 0 < count p xs → remove_front p xs ≢ none
unfolding remove_front
works-remove_front p [] h = absurd (omega arith)
works-remove_front p (z ∷ zs) h = ground (arith, mem-of_count p (z ∷ zs) h)

remove_front-Removes : Removes remove_front
remove_front-Removes = record { takes_one = takes_one-remove_front; works = works-remove_front }

module _ (remove : ℕ → List ℕ → Option (List ℕ)) (r : Removes remove) where
  count-remove_all :
      (ps xs ys : List ℕ)
      → remove_all remove ps xs ≡ some ys
      → (x : ℕ) → count x ys ≡ count x xs - count x ps
  unfolding remove_all
  count-remove_all [] xs ys h x = ground arith
  count-remove_all (p ∷ ps) xs ys h x =
      let (zs, e, k) = >>=-eq-some (remove p xs) _ h in
      omega (arith, r.takes_one p xs zs e x, count-remove_all ps zs ys k x)

  remove_all-ne-none :
      (ps xs : List ℕ) → ((x : ℕ) → count x ps ≤ count x xs) → remove_all remove ps xs ≢ none
  unfolding remove_all
  remove_all-ne-none [] xs h = some-ne-none xs
  remove_all-ne-none (p ∷ ps) xs h =
      >>=-ne-none (remove p xs) _ (r.works p xs (ground (arith, h p, ==_self p)))
        λ ys e. remove_all-ne-none ps ys (λ x. ground (arith, h x, r.takes_one p xs ys e x))

back-held : (xs : List ℕ) (x : ℕ) → back xs ≡ some x → 0 < count x xs
back-held xs x h = ground (arith, count-back_pop x x xs h, ==_self x)

front-held : (xs : List ℕ) (x : ℕ) → front xs ≡ some x → 0 < count x xs
front-held [] x h = cc
front-held (y ∷ ys) x h = ground (arith, ==_self x)

get_elem?-held : (xs : List ℕ) (i x : ℕ) → get_elem? xs i ≡ some x → 0 < count x xs
get_elem?-held [] i x h = cc
get_elem?-held (y ∷ ys) zero x h = ground (arith, ==_self x)
get_elem?-held (y ∷ ys) (suc i) x h = omega (arith, get_elem?-held ys i x h)

nil-held : (xs : List ℕ) → is_nil xs ≡ true → (x : ℕ) → count x xs ≡ 0
nil-held [] h x = refl
nil-held (y ∷ ys) h x = cc

-- The depth-first searcher keeps the laws of a searcher.
pub dfs-SearcherLaws : SearcherLaws dfs
unfolding dfs_update
dfs-SearcherLaws = record {
  holds-update = λ cur added removed s t h x. omega (
    arith,
    count-remove_all remove_back remove_back-Removes removed (s ++ added) t h x,
    count-append x s added,
  );
  empty-holds = nil-held;
  select-holds = back-held;
}

count-bfs_requeue :
    (cur : Option ℕ) (added removed states queue : List ℕ)
    → bfs_requeue cur added removed states ≡ some queue
    → (x : ℕ) → count x queue ≡ count x states
unfolding bfs_requeue
count-bfs_requeue none added removed states queue h x = ground arith
count-bfs_requeue (some c) added removed states queue h x = ground (
  arith,
  count-erase_first x c states,
  count-push_back x c (erase_first c states),
  count-mem c states,
)

bfs_requeue-ne-none :
    (cur : Option ℕ) (added removed states : List ℕ)
    → ((c : ℕ) → cur ≡ some c → 0 < count c states)
    → bfs_requeue cur added removed states ≢ none
unfolding bfs_requeue
bfs_requeue-ne-none none added removed states k = some-ne-none states
bfs_requeue-ne-none (some c) added removed states k =
    ground (arith, mem-of_count c states (k c refl))

-- So does the breadth-first one.
pub bfs-SearcherLaws : SearcherLaws bfs
unfolding bfs_update
bfs-SearcherLaws = record {
  holds-update = λ cur added removed s t h x.
      let (queue, e, k) = >>=-eq-some (bfs_requeue cur added removed s) _ h in
      omega (
        arith,
        count-remove_all remove_front remove_front-Removes removed (queue ++ added) t k x,
        count-append x queue added,
        count-bfs_requeue cur added removed s queue e x,
      );
  empty-holds = nil-held;
  select-holds = front-held;
}

-- And the random one, whatever the generator gives.
pub random_state-SearcherLaws : (random : ℕ) → SearcherLaws (random_state random)
unfolding random_update
random_state-SearcherLaws random = record {
  holds-update = λ cur added removed s t h x. omega (
    arith,
    count-remove_all erase_found erase_found-Removes removed (s ++ added) t h x,
    count-append x s added,
  );
  empty-holds = nil-held;
  select-holds = λ s x h. get_elem?-held s (random % length s) x h;
}

-- An update of the depth-first, the breadth-first and the random searcher runs through with no
-- failed assertion or undefined operation if no state is removed more often than it is held or
-- added and the current state, if there is one, is held.
pub simple_update-ne-none :
    (cur : Option ℕ) (added removed states : List ℕ)
    → ((x : ℕ) → count x removed ≤ count x states + count x added)
    → ((c : ℕ) → cur ≡ some c → 0 < count c states)
    → (dfs_update cur added removed states ≢ none)
      × (bfs_update cur added removed states ≢ none)
      × (random_update cur added removed states ≢ none)
unfolding dfs_update bfs_update random_update
simple_update-ne-none cur added removed states h k = (
  remove_all-ne-none remove_back remove_back-Removes removed (states ++ added)
      (λ x. omega (arith, h x, count-append x states added)),
  >>=-ne-none (bfs_requeue cur added removed states) _
      (bfs_requeue-ne-none cur added removed states k)
      λ queue e. remove_all-ne-none remove_front remove_front-Removes removed (queue ++ added) (λ x.
        omega (
          arith,
          h x,
          count-append x queue added,
          count-bfs_requeue cur added removed states queue e x,
        )),
  remove_all-ne-none erase_found erase_found-Removes removed (states ++ added)
      (λ x. omega (arith, h x, count-append x states added)),
)

-- The depth-first, the breadth-first and, whatever its generator gives, the random searcher keep
-- the laws of a searcher: an update adds and removes exactly what it is told to, an empty one
-- holds nothing, and a selected state is held.
pub simple-SearcherLaws :
    SearcherLaws dfs × SearcherLaws bfs × ((random : ℕ) → SearcherLaws (random_state random))
simple-SearcherLaws = (dfs-SearcherLaws, bfs-SearcherLaws, random_state-SearcherLaws)
