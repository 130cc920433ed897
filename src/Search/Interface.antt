-- ===== src/Search/Interface.antt =====
-- klee/lib/Core/Searcher.h: class Searcher, what a searcher does and what its clients rely on.
use cgs.Prelude.{ℕ, ◌+◌, ◌-◌, ◌<◌, ◌≤◌, ◌≡◌, ◌≢◌, Bool, true, Option, none, some, List, count}

-- The virtual methods, and how often a searcher holds a state. `none` is a failed assertion or
-- undefined behaviour.
pub record SearcherOps (S : Type 0) : Type 0 where
  pub select_state : S → Option ℕ
  pub update : Option ℕ → List ℕ → List ℕ → S → Option S
  pub empty : S → Bool
  pub holds : ℕ → S → ℕ

-- An update adds and removes what it is told to, only an empty searcher is empty, and a state that is
-- selected is one that is held.
pub record SearcherLaws {S : Type 0} (o : SearcherOps S) : Type 0 where
  pub holds-update :
      (cur : Option ℕ) (added removed : List ℕ) (s t : S)
      → o.update cur added removed s ≡ some t
      → (x : ℕ) → o.holds x t ≡ o.holds x s + count x added - count x removed
  pub empty-holds : (s : S) → o.empty s ≡ true → (x : ℕ) → o.holds x s ≡ 0
  pub select-holds : (s : S) (x : ℕ) → o.select_state s ≡ some x → 0 < o.holds x s

-- An update runs through if no state is removed more often than it is held or added and the current
-- state is held, and a selection if some state is held.
pub record SearcherRuns {S : Type 0} (o : SearcherOps S) : Type 0 where
  pub update-runs :
      (cur : Option ℕ) (added removed : List ℕ) (s : S)
      → ((x : ℕ) → count x removed ≤ o.holds x s + count x added)
      → ((c : ℕ) → cur ≡ some c → 0 < o.holds c s)
      → o.update cur added removed s ≢ none
  pub select-runs : (x : ℕ) (s : S) → 0 < o.holds x s → o.select_state s ≢ none
