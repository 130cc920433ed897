-- ===== src/Search/Simple.antt =====
-- klee/lib/Core/Searcher.cpp: DFSSearcher, BFSSearcher and RandomSearcher, each over one vector.
use cgs.Prelude.{
  ℕ, ◌%◌, not, ◌&&◌, Option, none, some, List, [], ◌∷◌, ◌++◌, ◌==◌, if◌then◌else◌, ◌>>=◌, mem,
  erase_found, push_back, back, pop_back, front, is_nil, count, length, get_elem?,
}
use cgs.Search.Interface.{SearcherOps}

-- One state is removed: from the back or the front where it stands there, and else where it is found.
unfoldable pub remove_back : ℕ → List ℕ → Option (List ℕ)
remove_back p xs = do last ← back xs; if p == last then some (pop_back xs) else erase_found p xs

unfoldable pub remove_front : ℕ → List ℕ → Option (List ℕ)
remove_front p [] = none
remove_front p (x ∷ xs) = if p == x then some xs else erase_found p (x ∷ xs)

-- The loop over the removed states.
unfoldable pub remove_all : (ℕ → List ℕ → Option (List ℕ)) → List ℕ → List ℕ → Option (List ℕ)
remove_all remove [] xs = some xs
remove_all remove (p ∷ ps) xs = do ys ← remove p xs; remove_all remove ps ys

unfoldable pub dfs_update : Option ℕ → List ℕ → List ℕ → List ℕ → Option (List ℕ)
unfolding remove_back remove_all
dfs_update cur added removed states = remove_all remove_back removed (states ++ added)

abbrev pub dfs : SearcherOps (List ℕ)
dfs = record { select_state = back; update = dfs_update; empty = is_nil; holds = count }

-- The current state, which goes on, moves to the back when states were added.
unfoldable pub bfs_requeue : Option ℕ → List ℕ → List ℕ → List ℕ → Option (List ℕ)
bfs_requeue none added removed states = some states
bfs_requeue (some c) added removed states =
    if not (is_nil added) && not (mem c removed)
    then (do left ← erase_found c states; some (push_back left c))
    else some states

unfoldable pub bfs_update : Option ℕ → List ℕ → List ℕ → List ℕ → Option (List ℕ)
unfolding bfs_requeue remove_front remove_all
bfs_update cur added removed states = do
  queue ← bfs_requeue cur added removed states
  remove_all remove_front removed (queue ++ added)

abbrev pub bfs : SearcherOps (List ℕ)
bfs = record { select_state = front; update = bfs_update; empty = is_nil; holds = count }

unfoldable pub random_update : Option ℕ → List ℕ → List ℕ → List ℕ → Option (List ℕ)
unfolding remove_all
random_update cur added removed states = remove_all erase_found removed (states ++ added)

-- `random` is what the generator gives next.
abbrev pub random_state : ℕ → SearcherOps (List ℕ)
random_state random = record {
  select_state = λ states. get_elem? states (random % length states);
  update = random_update;
  empty = is_nil;
  holds = count;
}
