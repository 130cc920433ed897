-- ===== src/Solver/ChainTests.antt =====
-- klee/lib/Solver/CachingSolver.cpp and IncompleteSolver.cpp: bounds on a byte that is 5 or 9.
use cgs.Prelude.{
  ℕ, ◌≡◌, ◌⊎◌, inl, inr, refl, ap, Bool, true, false, not, ◌&&◌, Option, some, [], ◌∷◌, ◌==◌, leb,
  ==_iff, if◌then◌else◌, Bool-cases, arith,
}
use cgs.Solver.Query.{Validity, is_true, is_false, is_unknown}
use cgs.Solver.Partial.{
  PartialValidity, must_true, may_true, may_false, no_answer, ConstrainedQuery, ExprOps,
  negate_partial_validity, incomplete_validity, staged_truth, staged_validity,
}
use cgs.Solver.Caching.{
  CacheMap, canonicalize_query, find_entry, cache_lookup, cache_insert, settle_hit,
  caching_validity, ask_truth, caching_truth,
}
use cgs.Solver.Meaning.{ExprLaws, AllModels, SomeModel, MeansValidity}
use cgs.Solver.CacheEntries.{CacheIsSound}
use cgs.Solver.CachingLaws.{
  SolverLaws, ValidityGiven, TruthGiven, caching_validity_lem, caching_truth_lem,
}
use cgs.Solver.Unrefined.{caching-same}
use cgs.Solver.StagedLaws.{PrimaryLaws, staged-SolverLaws}

data Bound : Type 0 where
  up_to above : ℕ → Bound

abbrev create_is_zero : Bound → Bound
create_is_zero (up_to n) = above n
create_is_zero (above n) = up_to n

abbrev is_less : Bound → Bound → Bool
is_less (up_to n) b = true
is_less (above n) b = false

abbrev same : Bound → Bound → Bool
same (up_to n) (up_to k) = n == k
same (up_to n) (above k) = false
same (above n) (up_to k) = false
same (above n) (above k) = n == k

abbrev BoundQuery : Type 0
BoundQuery = ConstrainedQuery (Unit {0}) Bound

abbrev ops : ExprOps (Unit {0}) Bound
ops = record {
  create_is_zero = create_is_zero;
  is_less = is_less;
  same_query = λ a b. same a.expr b.expr;
}

abbrev holds : Bound → Unit {0} → Bool → Bool
holds (up_to n) c m = leb (if m then 9 else 5) n
holds (above n) c m = not (leb (if m then 9 else 5) n)

flips : (e : Bound) (c : Unit {0}) (m : Bool) → holds (create_is_zero e) c m ≡ not (holds e c m)
flips (up_to n) c m = refl
flips (above n) c true = ground arith
flips (above n) c false = ground arith

same-eq : (a b : Bound) → same a b ≡ true → a ≡ b
same-eq (up_to n) (up_to k) h = ap up_to ((==_iff n k).0 h)
same-eq (up_to n) (above k) h = cc
same-eq (above n) (up_to k) h = cc
same-eq (above n) (above k) h = ap above ((==_iff n k).0 h)

laws : ExprLaws ops {M = λ c. Bool} holds
laws = record {
  holds-create_is_zero = flips;
  same_query-eq =
      λ a b h. ap (λ e. record { constraints = tt; expr = e }) (same-eq a.expr b.expr h);
}

abbrev ask : Bool → Bound → Bool
ask m e = holds e tt m

abbrev truth : BoundQuery → Option Bool
truth q = some (ask false q.expr && ask true q.expr)

abbrev validity : BoundQuery → Option Validity
validity q = some (
    if ask false q.expr
    then (if ask true q.expr then is_true else is_unknown)
    else (if ask true q.expr then is_unknown else is_false))

both :
    (b : Bool) (q : BoundQuery)
    → ask false q.expr ≡ b
    → ask true q.expr ≡ b
    → AllModels ops {M = λ c. Bool} holds b q
both b q low high false = low
both b q low high true = high

truth_lem :
    (q : BoundQuery)
    → ((truth q ≡ some true) × AllModels ops {M = λ c. Bool} holds true q)
      ⊎ ((truth q ≡ some false) × SomeModel ops {M = λ c. Bool} holds false q)
truth_lem q = elim (Bool-cases (ask false q.expr)) [
  | inr low ↦ inr (rw low refl, (false, low))
  | inl low ↦ elim (Bool-cases (ask true q.expr)) [
    | inr high ↦ inr (rw (low, high) refl, (true, high))
    | inl high ↦ inl (rw (low, high) refl, both true q low high)
  ]
]

validity_lem :
    (q : BoundQuery)
    → (v : Validity) × (validity q ≡ some v) × MeansValidity ops {M = λ c. Bool} holds v q
validity_lem q = elim (Bool-cases (ask false q.expr)) [
  | inl low ↦ elim (Bool-cases (ask true q.expr)) [
    | inl high ↦ (is_true, rw (low, high) refl, both true q low high)
    | inr high ↦ (is_unknown, rw (low, high) refl, ((false, low), (true, high)))
  ]
  | inr low ↦ elim (Bool-cases (ask true q.expr)) [
    | inl high ↦ (is_unknown, rw (low, high) refl, ((true, high), (false, low)))
    | inr high ↦ (is_false, rw (low, high) refl, both false q low high)
  ]
]

below : SolverLaws ops holds laws truth validity
below = record { truth-Means = truth_lem; validity-Means = validity_lem }

abbrev query : BoundQuery
query = record { constraints = tt; expr = above 7 }

abbrev canonical : BoundQuery
canonical = record { constraints = tt; expr = up_to 7 }

-- That the byte is above 7 is refuted, which is kept as that it may be up to 7.
abbrev cache : CacheMap ops
cache = (canonical, may_true) ∷ []

truth_run : caching_truth ops truth validity query [] ≡ some (false, cache)
unfolding caching_truth cache_lookup canonicalize_query find_entry ask_truth cache_insert
    negate_partial_validity
truth_run = refl

validity_run : caching_validity ops truth validity query cache ≡ some (is_unknown, cache)
unfolding caching_validity cache_lookup canonicalize_query find_entry settle_hit cache_insert
    negate_partial_validity
validity_run = refl

truth_hit : caching_truth ops truth validity query cache ≡ some (false, cache)
unfolding caching_truth cache_lookup canonicalize_query find_entry ask_truth cache_insert
    negate_partial_validity
truth_hit = refl

found : cache_lookup ops query cache ≡ some (some may_false)
unfolding cache_lookup canonicalize_query find_entry negate_partial_validity
found = refl

cache-IsSound : CacheIsSound ops {M = λ c. Bool} holds laws cache
cache-IsSound = (((false, refl), refl), tt)

caching_validity_lem_example :
    ValidityGiven ops holds laws truth validity below query
      (caching_validity ops truth validity query cache)
caching_validity_lem_example =
    caching_validity_lem ops holds laws truth validity below query cache cache-IsSound

caching_truth_lem_example :
    TruthGiven ops holds laws truth validity below query
      (caching_truth ops truth validity query cache)
caching_truth_lem_example =
    caching_truth_lem ops holds laws truth validity below query cache true cache-IsSound

caching-same_example : (cache ≡ cache) × (cache ≡ cache)
caching-same_example =
    caching-same ops query may_false cache found truth validity is_unknown false cache cache
      validity_run truth_hit

-- A first stage that only knows that the byte is at most 9.
abbrev primary : BoundQuery → PartialValidity
primary q = elim q.expr [ up_to n ↦ if leb 9 n then must_true else no_answer | above n ↦ no_answer ]

abbrev plain : Bound → BoundQuery
plain e = record { constraints = tt; expr = e }

up_to_all : (n : ℕ) → leb 9 n ≡ true → (m : Bool) → holds (up_to n) tt m ≡ true
up_to_all n h true = h
up_to_all n h false = ground arith

first_answers :
    (e : Bound)
    → ((primary (plain e) ≡ must_true) × AllModels ops {M = λ c. Bool} holds true (plain e))
      ⊎ ((primary (plain e) ≡ may_false) × SomeModel ops {M = λ c. Bool} holds false (plain e))
      ⊎ (primary (plain e) ≡ no_answer)
first_answers (above n) = inr (inr refl)
first_answers (up_to n) = elim (Bool-cases (leb 9 n)) [
  | inl h ↦ inl (rw h refl, up_to_all n h)
  | inr h ↦ inr (inr (rw h refl))
]

first : PrimaryLaws ops {M = λ c. Bool} holds laws primary
first = record { answers = λ q. first_answers q.expr }

staged-SolverLaws_example :
    SolverLaws ops holds laws
      (staged_truth ops primary (incomplete_validity ops primary) truth validity)
      (staged_validity ops primary (incomplete_validity ops primary) truth validity)
staged-SolverLaws_example = staged-SolverLaws ops holds laws primary first truth validity below
