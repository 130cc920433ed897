-- ===== src/Search/CgsLaws.antt =====
-- klee/lib/Core/Searcher.cpp: CGSSearcher keeps the laws of a searcher.
use cgs.Prelude.{ℕ, ◌<◌, ◌≡◌, refl, true, some, List, [], ◌∷◌, is_nil, front, count, arith, ==_self}
use cgs.Cgs.State.{Program, Searcher, held}
use cgs.Cgs.Update.{select_state, update, empty}
use cgs.Cgs.Conservation.{held-update}
use cgs.Search.Interface.{SearcherOps, SearcherLaws}

abbrev pub cgs_searcher : Program → SearcherOps Searcher
cgs_searcher prog = record {
  select_state = select_state;
  update = update prog;
  empty = empty;
  holds = held;
}

nil-held : (xs : List ℕ) → is_nil xs ≡ true → (x : ℕ) → count x xs ≡ 0
nil-held [] h x = refl
nil-held (y ∷ ys) h x = cc

front-held : (xs : List ℕ) (x : ℕ) → front xs ≡ some x → 0 < count x xs
front-held [] x h = cc
front-held (y ∷ ys) x h = ground (arith, ==_self x)

empty-held : (s : Searcher) → empty s ≡ true → (x : ℕ) → held x s ≡ 0
unfolding empty
empty-held s h x = ground (arith, nil-held s.states, nil-held s.branch_states)

select_state-held : (s : Searcher) (x : ℕ) → select_state s ≡ some x → 0 < held x s
unfolding select_state
select_state-held s x h = ground (arith, front-held s.states x, front-held s.branch_states x)

-- For every program CGSSearcher keeps the laws of a searcher.
pub cgs-SearcherLaws : (prog : Program) → SearcherLaws (cgs_searcher prog)
cgs-SearcherLaws prog = record {
  holds-update = λ cur added removed s t h x. held-update prog cur added removed s t h x;
  empty-holds = empty-held;
  select-holds = select_state-held;
}
