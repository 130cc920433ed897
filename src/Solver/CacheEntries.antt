-- ===== src/Solver/CacheEntries.antt =====
-- klee/lib/Solver/CachingSolver.cpp: what an entry tells stays true from its insertion to its lookup.
use cgs.Prelude.{
  ◌≡◌, subst, ◌⊎◌, inl, inr, refl, Bool, false, none, some, [], ◌∷◌, Bool-cases, Option-cases, All,
  arith,
}
use cgs.Solver.Partial.{PartialValidity, ConstrainedQuery, ExprOps, is_no_answer, negated_query}
use cgs.Solver.Caching.{CacheMap, canonicalize_query, find_entry, turn, cache_lookup, cache_insert}
use cgs.Solver.Meaning.{ExprLaws, Means, Means-negate, negate-Means}

module _ {C E : Type 0} (ops : ExprOps C E) {M : C → Type 0} (holds : E → (c : C) → M c → Bool)
    (laws : ExprLaws ops holds) where
  abbrev pub Kept : ConstrainedQuery C E × PartialValidity → Type 0
  Kept e = Means ops holds e.1 e.0 × (is_no_answer e.1 ≡ false)

  -- Every entry tells something true of its query.
  abbrev pub CacheIsSound : CacheMap ops → Type 0
  CacheIsSound cache = All Kept cache

  find_entry-Kept :
      (q : ConstrainedQuery C E) (cache : CacheMap ops) (pv : PartialValidity)
      → CacheIsSound cache
      → find_entry ops q cache ≡ some pv
      → Kept (q, pv)
  unfolding find_entry
  find_entry-Kept q [] pv s h = cc
  find_entry-Kept q (e ∷ es) pv (first, s) h = elim (Bool-cases (ops.same_query e.0 q)) [
    | inl i ↦
        let same : e.0 ≡ q = laws.same_query-eq e.0 q i in
        let found : e.1 ≡ pv = ground (arith, i) in
        subst (λ p. Kept (p, pv)) same (subst (λ v. Kept (e.0, v)) found first)
    | inr i ↦ find_entry-Kept q es pv s (ground (arith, i))
  ]

  turned_back :
      (q : ConstrainedQuery C E) (pv : PartialValidity)
      → Kept ((canonicalize_query ops q).1, pv)
      → (pv' : PartialValidity) × (turn ops (canonicalize_query ops q).0 pv ≡ some pv')
        × Kept (q, pv')
  unfolding canonicalize_query
  turned_back q pv k = elim (Bool-cases (ops.is_less q.expr (ops.create_is_zero q.expr))) [
    | inl e ↦ (pv, rw e refl, rw e at k)
    | inr e ↦
        let (means, answered) : Kept (negated_query ops q, pv) = rw e at k in
        let (pv', run, means', answered') = negate-Means ops holds laws pv q means answered in
        (pv', rw e run, (means', answered'))
  ]

  turned :
      (q : ConstrainedQuery C E) (pv : PartialValidity)
      → Kept (q, pv)
      → (pv' : PartialValidity) × (turn ops (canonicalize_query ops q).0 pv ≡ some pv')
        × Kept ((canonicalize_query ops q).1, pv')
  unfolding canonicalize_query
  turned q pv k = elim (Bool-cases (ops.is_less q.expr (ops.create_is_zero q.expr))) [
    | inl e ↦ (pv, rw e refl, rw e k)
    | inr e ↦
        let (pv', run, means', answered') = Means-negate ops holds laws pv q k.0 k.1 in
        (pv', rw e run, rw e (means', answered'))
  ]

  pub lookup_lem :
      (q : ConstrainedQuery C E) (cache : CacheMap ops)
      → CacheIsSound cache
      → (cache_lookup ops q cache ≡ some none)
        ⊎ ((pv : PartialValidity) × (cache_lookup ops q cache ≡ some (some pv)) × Kept (q, pv))
  unfolding cache_lookup
  lookup_lem q cache s = elim (Option-cases (find_entry ops (canonicalize_query ops q).1 cache)) [
    | inl e ↦ inl (rw (e, cache_lookup) refl)
    | inr (pv, e) ↦
        let (pv', run, k) =
          turned_back q pv (find_entry-Kept (canonicalize_query ops q).1 cache pv s e) in
        inr (pv', rw (e, run, cache_lookup) refl, k)
  ]

  pub insert_lem :
      (q : ConstrainedQuery C E) (pv : PartialValidity) (cache : CacheMap ops)
      → CacheIsSound cache
      → Kept (q, pv)
      → (cache' : CacheMap ops) × (cache_insert ops q pv cache ≡ some cache') × CacheIsSound cache'
  unfolding cache_insert
  insert_lem q pv cache s k =
      let (pv', run, k') = turned q pv k in
      elim (Option-cases (find_entry ops (canonicalize_query ops q).1 cache)) [
        | inl e ↦ (((canonicalize_query ops q).1, pv') ∷ cache, rw (run, e) refl, (k', s))
        | inr (old, e) ↦ (cache, rw (run, e) refl, s)
      ]
