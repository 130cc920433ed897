-- ===== src/Solver/Unrefined.antt =====
-- klee/lib/Solver/CachingSolver.cpp: an entry is never refined.
use cgs.Prelude.{
  ◌≡◌, Bool, Option, none, some, inl, inr, if◌then◌else◌, >>=-eq-some, Bool-cases, Option-cases,
  arith,
}
use cgs.Solver.Query.{Validity}
use cgs.Solver.Partial.{
  PartialValidity, must_true, must_false, may_true, may_false, true_or_false, no_answer,
  ConstrainedQuery, ExprOps, is_must_true, negated_query,
}
use cgs.Solver.Caching.{
  CacheMap, learnt, is_may_true, canonicalize_query, find_entry, turn, cache_lookup, cache_insert,
  settle_hit, caching_validity, ask_truth, caching_truth,
}

module _ {C E : Type 0} (ops : ExprOps C E) (q : ConstrainedQuery C E) (pv : PartialValidity)
    (cache : CacheMap ops) (found : cache_lookup ops q cache ≡ some (some pv)) where
  insert-same :
      (result : PartialValidity) (cache' : CacheMap ops)
      → cache_insert ops q result cache ≡ some cache'
      → cache' ≡ cache
  unfolding cache_lookup cache_insert
  insert-same result cache' h =
      elim (Option-cases (find_entry ops (canonicalize_query ops q).1 cache)) [
        | inl e ↦ let missed : some none ≡ some (some pv) = rw (e, cache_lookup) at found in cc
        | inr (old, e) ↦
            let (kept, _, k) = >>=-eq-some (turn ops (canonicalize_query ops q).0 result) _ h in
            ground (arith, e, k)
      ]

  module _ (truth : ConstrainedQuery C E → Option Bool)
      (validity : ConstrainedQuery C E → Option Validity) where
    settle_hit-same :
        (v : Validity) (cache' : CacheMap ops)
        → (kind : PartialValidity) → settle_hit ops truth validity kind q cache ≡ some (v, cache')
        → cache' ≡ cache
    unfolding settle_hit
    settle_hit-same v cache' must_true h = cc
    settle_hit-same v cache' must_false h = cc
    settle_hit-same v cache' true_or_false h = cc
    settle_hit-same v cache' no_answer h = cc
    settle_hit-same v cache' may_true h =
        let (tmp, _, k) = >>=-eq-some (truth q) _ h in
        let (c, e, l) =
          >>=-eq-some (cache_insert ops q (if tmp then must_true else true_or_false) cache) _ k in
        let same : c ≡ cache' = cc in
        rw same at (insert-same (if tmp then must_true else true_or_false) c e)
    settle_hit-same v cache' may_false h =
        let (tmp, _, k) = >>=-eq-some (truth (negated_query ops q)) _ h in
        let (c, e, l) =
          >>=-eq-some (cache_insert ops q (if tmp then must_false else true_or_false) cache) _ k in
        let same : c ≡ cache' = cc in
        rw same at (insert-same (if tmp then must_false else true_or_false) c e)

    ask_truth-same :
        (known : Option PartialValidity) (b : Bool) (cache' : CacheMap ops)
        → ask_truth ops truth validity known q cache ≡ some (b, cache')
        → cache' ≡ cache
    unfolding ask_truth
    ask_truth-same known b cache' h =
        let (valid, _, k) = >>=-eq-some (truth q) _ h in
        let (c, e, l) = >>=-eq-some (cache_insert ops q (learnt known valid) cache) _ k in
        let same : c ≡ cache' = cc in rw same at (insert-same (learnt known valid) c e)

    hit_truth-same :
        (b : Bool) (cache' : CacheMap ops)
        → (if is_may_true pv
            then ask_truth ops truth validity (some pv) q cache
            else some (is_must_true pv, cache))
          ≡ some (b, cache')
        → cache' ≡ cache
    hit_truth-same b cache' h = elim (Bool-cases (is_may_true pv)) [
      | inl e ↦ ask_truth-same (some pv) b cache' (rw e at h)
      | inr e ↦
          let k : ◌≡◌ {A = Option (Bool × CacheMap ops)} (some (is_must_true pv, cache))
              (some (b, cache')) =
            rw e at h in
          cc
    ]

    -- Where a query is found in the cache, computeValidity and computeTruth leave the cache as it
    -- is, whatever they learn: a partial answer stays partial.
    pub caching-same :
        (v : Validity) (b : Bool) (first second : CacheMap ops)
        → caching_validity ops truth validity q cache ≡ some (v, first)
        → caching_truth ops truth validity q cache ≡ some (b, second)
        → (first ≡ cache) × (second ≡ cache)
    unfolding caching_validity caching_truth
    caching-same v b first second h k = (
      settle_hit-same v first pv (rw (found, caching_validity) at h),
      hit_truth-same b second (rw (found, caching_truth) at k),
    )
