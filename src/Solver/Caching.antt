-- ===== src/Solver/Caching.antt =====
-- klee/lib/Solver/CachingSolver.cpp: answers are kept for the smaller one of a question and its negation.
use cgs.Prelude.{Bool, true, false, Option, none, some, List, [], ◌∷◌, if◌then◌else◌, ◌>>=◌}
use cgs.Solver.Query.{Validity, is_true, is_false, is_unknown}
use cgs.Solver.Partial.{
  PartialValidity, must_true, must_false, may_true, may_false, true_or_false, no_answer,
  ConstrainedQuery, ExprOps, negate_partial_validity, is_must_true, negated_query,
}

abbrev pub is_may_true : PartialValidity → Bool
is_may_true may_true = true
is_may_true pv = false

-- The result of a complete answer, as it is kept.
abbrev pub partial_of : Validity → PartialValidity
partial_of is_true = must_true
partial_of is_false = must_false
partial_of is_unknown = true_or_false

-- What an answer of computeTruth adds to what was found.
abbrev pub learnt : Option PartialValidity → Bool → PartialValidity
learnt found true = must_true
learnt none false = may_false
learnt (some pv) false = true_or_false

module _ {C E : Type 0} (ops : ExprOps C E) where
  abbrev pub CacheMap : Type 0
  CacheMap = List (ConstrainedQuery C E × PartialValidity)

  -- The canonical query, and whether it is the negation.
  unfoldable pub canonicalize_query : ConstrainedQuery C E → Bool × ConstrainedQuery C E
  canonicalize_query q =
      if ops.is_less q.expr (ops.create_is_zero q.expr)
      then (false, q)
      else (true, negated_query ops q)

  unfoldable pub find_entry : ConstrainedQuery C E → CacheMap → Option PartialValidity
  find_entry q [] = none
  find_entry q (e ∷ es) = if ops.same_query e.0 q then some e.1 else find_entry q es

  abbrev pub turn : Bool → PartialValidity → Option PartialValidity
  turn negation_used pv = if negation_used then negate_partial_validity pv else some pv

  unfoldable pub cache_lookup : ConstrainedQuery C E → CacheMap → Option (Option PartialValidity)
  cache_lookup q cache = elim (find_entry (canonicalize_query q).1 cache) [
    | none ↦ some none
    | some pv ↦ (do found ← turn (canonicalize_query q).0 pv; some (some found))
  ]

  -- `insert` of a map keeps an entry that is there.
  unfoldable pub cache_insert : ConstrainedQuery C E → PartialValidity → CacheMap → Option CacheMap
  cache_insert q result cache = do
    let entry = (canonicalize_query q).1
    kept ← turn (canonicalize_query q).0 result
    some (elim (find_entry entry cache) [ some pv ↦ cache | none ↦ (entry, kept) ∷ cache ])

  module _ (truth : ConstrainedQuery C E → Option Bool)
      (validity : ConstrainedQuery C E → Option Validity) where
    -- A hit that is not complete is settled by one question.
    unfoldable pub settle_hit :
        PartialValidity → ConstrainedQuery C E → CacheMap → Option (Validity × CacheMap)
    settle_hit must_true q cache = some (is_true, cache)
    settle_hit must_false q cache = some (is_false, cache)
    settle_hit true_or_false q cache = some (is_unknown, cache)
    settle_hit may_true q cache = do
      tmp ← truth q
      cache' ← cache_insert q (if tmp then must_true else true_or_false) cache
      some (if tmp then is_true else is_unknown, cache')
    settle_hit may_false q cache = do
      tmp ← truth (negated_query ops q)
      cache' ← cache_insert q (if tmp then must_false else true_or_false) cache
      some (if tmp then is_false else is_unknown, cache')
    settle_hit no_answer q cache = none

    unfoldable pub ask_validity : ConstrainedQuery C E → CacheMap → Option (Validity × CacheMap)
    ask_validity q cache = do
      result ← validity q
      cache' ← cache_insert q (partial_of result) cache
      some (result, cache')

    unfoldable pub caching_validity : ConstrainedQuery C E → CacheMap → Option (Validity × CacheMap)
    caching_validity q cache = cache_lookup q cache >>= λ found. elim found [
      | none ↦ ask_validity q cache
      | some pv ↦ settle_hit pv q cache
    ]

    unfoldable pub ask_truth :
        Option PartialValidity → ConstrainedQuery C E → CacheMap → Option (Bool × CacheMap)
    ask_truth found q cache = do
      is_valid ← truth q
      cache' ← cache_insert q (learnt found is_valid) cache
      some (is_valid, cache')

    unfoldable pub caching_truth : ConstrainedQuery C E → CacheMap → Option (Bool × CacheMap)
    caching_truth q cache = cache_lookup q cache >>= λ found. elim found [
      | none ↦ ask_truth none q cache
      | some pv ↦
          if is_may_true pv then ask_truth (some pv) q cache else some (is_must_true pv, cache)
    ]
