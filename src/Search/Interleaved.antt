-- ===== src/Search/Interleaved.antt =====
-- klee/lib/Core/Searcher.cpp: InterleavedSearcher, which asks one searcher after the other.
use cgs.Prelude.{
  ℕ, ◌-◌, Bool, Option, some, List, [], ◌∷◌, ◌==◌, if◌then◌else◌, ◌>>=◌, get_elem?, length,
}
use cgs.Search.Interface.{SearcherOps}

module _ {S : Type 0} (base : SearcherOps S) where
  pub record Interleaved : Type 0 where
    pub searchers : List S
    pub index : ℕ

  unfoldable pub interleaved : List S → Interleaved
  interleaved searchers = record { searchers = searchers; index = 1 }

  -- `searchers[--index]`, and back to the end after the first one.
  unfoldable pub interleaved_select : Interleaved → Option (ℕ × Interleaved)
  interleaved_select m = do
    let i = m.index - 1
    s ← get_elem? m.searchers i
    p ← base.select_state s
    some (p, record m { index = if i == 0 then length m.searchers else i })

  unfoldable pub update_each : Option ℕ → List ℕ → List ℕ → List S → Option (List S)
  update_each cur added removed [] = some []
  update_each cur added removed (s ∷ ss) = do
    t ← base.update cur added removed s
    ts ← update_each cur added removed ss
    some (t ∷ ts)

  unfoldable pub interleaved_update : Option ℕ → List ℕ → List ℕ → Interleaved → Option Interleaved
  interleaved_update cur added removed m = do
    ss ← update_each cur added removed m.searchers
    some (record m { searchers = ss })

  -- `searchers[0]->empty()`
  unfoldable pub interleaved_empty : Interleaved → Option Bool
  interleaved_empty m = do s ← get_elem? m.searchers 0; some (base.empty s)
