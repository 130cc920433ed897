-- ===== src/Cgs/Caches.antt =====
-- klee/lib/Core/Searcher.cpp: the two caches of CGSSearcher::isNewStoreValue.

use Prim.Native.String.{String}
use text.Mathlib.Text.{◌==◌ as str_eq}
use text.Mathlib.TextEquality.{eq_iff}
use cgs.Prelude.Bits.{bit_and_twice, bit_or_twice}
use cgs.Prelude.{
  ℕ, ◌^◌, ◌<◌, ◌≡◌, Bool, true, false, not, ◌&&◌, none, some, List, [], ◌∷◌, ◌==◌, inl, inr,
  if◌then◌else◌, mem, ltb, leb, arith, ==_self, Bool-cases,
}
use cgs.Cgs.State.{icmp_ugt, icmp_ult, icmp_uge, icmp_ule, BdDep, Program, Memory}
use cgs.Cgs.StoreValue.{
  signed_lt, compare_value, covers_new, tested_value, update_value, insert, value_or_zero,
  touch_value, is_new_value, is_new_store_value,
}

mem-insert : (x v : ℕ) (vs : List ℕ) → mem x (insert v vs) ≡ (if x == v then true else mem x vs)
mem-insert x v vs = ground (arith)

-- The value to test: what the state stored at the store.
abbrev pub stored : Memory → ℕ → ℕ → ℕ
stored m p sid = value_or_zero ((m.heap p).store_values sid)

-- For 32-bit values the comparison by an unsigned predicate is the unsigned one where both values
-- have the same sign bit, and its opposite where they differ.
pub compare_value_unsigned :
    (v c : ℕ)
    → v < 2 ^ 32
    → c < 2 ^ 32
    → let same = if ltb v (2 ^ 31) then ltb c (2 ^ 31) else not (ltb c (2 ^ 31)) in
      (compare_value icmp_ugt v c ≡ (if same then ltb c v else not (ltb c v)))
      × (compare_value icmp_ult v c ≡ (if same then ltb v c else not (ltb v c)))
      × (compare_value icmp_uge v c ≡ (if same then leb c v else not (leb c v)))
      × (compare_value icmp_ule v c ≡ (if same then leb v c else not (leb v c)))
unfolding compare_value signed_lt
compare_value_unsigned v c hv hc = (ground arith, ground arith, ground arith, ground arith)

-- Masking by the operation of the branch a second time changes nothing.
update_value_twice :
    (op : String) (a v : ℕ) → update_value op a (update_value op a v) ≡ update_value op a v
unfolding update_value
update_value_twice op a v = elim (Bool-cases (str_eq op "and")) [
  | inl e ↦ rw ((eq_iff op "and").0 e, update_value) (bit_and_twice v a)
  | inr e ↦ ground (arith, bit_or_twice v a)
]

-- The value that is stored in a cache covers what the value of the state covers.
covers_new-tested_value : (d : BdDep) (v : ℕ) → covers_new d (tested_value d v) ≡ covers_new d v
unfolding covers_new tested_value
covers_new-tested_value d v = ground (arith, update_value_twice d.arith_op d.arith_var v)

-- The answer without caches, for a branch whose first value was `first`.
abbrev pub expected : Program → ℕ → ℕ → ℕ → Bool
expected prog bid first v = not (v == first) && covers_new (prog.dep bid) v

-- The caches of a branch agree with the answers without caches: the first value counts as invalid.
pub record IsCached (prog : Program) (m : Memory) (bid first : ℕ) : Type 0 where
  pub bad : List ℕ
  pub found : m.invalid_store_values bid ≡ some bad
  pub holds_first : mem first bad ≡ true
  pub rejects : (v : ℕ) → mem v bad ≡ true → expected prog bid first v ≡ false
  pub accepts :
      (v : ℕ) → mem v (m.valid_store_values bid) ≡ true → covers_new (prog.dep bid) v ≡ true

module _ (prog : Program) (m : Memory) (bid first v : ℕ) (k : IsCached prog m bid first) where
  is_new_value-expected : (is_new_value prog m bid v (some k.bad)).0 ≡ expected prog bid first v
  unfolding is_new_value
  is_new_value-expected = ground (arith, k.rejects v, k.accepts v, k.holds_first)

  is_new_value-IsCached : IsCached prog (is_new_value prog m bid v (some k.bad)).1 bid first
  unfolding is_new_value
  is_new_value-IsCached =
      let v' = if mem v k.bad then v else tested_value (prog.dep bid) v in
      record {
        bad = if expected prog bid first v then k.bad else insert v' k.bad;
        found = ground (arith, k.found, is_new_value-expected, k.accepts v, ==_self bid);
        holds_first = ground (arith, k.holds_first, mem-insert first v' k.bad);
        rejects = λ w h.
            ground
              (arith, k.rejects w, mem-insert w v' k.bad, covers_new-tested_value (prog.dep bid) v);
        accepts = λ w h. ground (
          arith,
          k.accepts w,
          k.accepts v,
          mem-insert w v (m.valid_store_values bid),
          mem-insert w (tested_value (prog.dep bid) v) (m.valid_store_values bid),
          covers_new-tested_value (prog.dep bid) v,
          ==_self bid,
        );
      }

module _ (prog : Program) (m : Memory) (p sid : ℕ) where
  -- The first value for a branch is always new, and fixes what its caches mean.
  pub is_new_store_value_first :
      (bid : ℕ)
      → m.invalid_store_values bid ≡ none
      → m.valid_store_values bid ≡ []
      → ((is_new_store_value prog m p bid sid).0 ≡ true)
        × IsCached prog (is_new_store_value prog m p bid sid).1 bid (stored m p sid)
  unfolding is_new_store_value is_new_value
  is_new_store_value_first bid e k = (
    ground arith,
    record {
      bad = stored m p sid ∷ [];
      found = ground (arith, ==_self bid);
      holds_first = ground (arith, ==_self (stored m p sid));
      rejects = λ v h. ground arith;
      accepts = λ v h. ground arith;
    },
  )

  -- Each later answer is the one without caches, and the caches still agree.
  pub is_new_store_value_later :
      (bid first : ℕ)
      → IsCached prog m bid first
      → ((is_new_store_value prog m p bid sid).0 ≡ expected prog bid first (stored m p sid))
        × IsCached prog (is_new_store_value prog m p bid sid).1 bid first
  unfolding is_new_store_value
  is_new_store_value_later bid first k =
      let v = stored m p sid in
      let k' : IsCached prog (touch_value m p sid v) bid first = record {
        bad = k.bad;
        found = k.found;
        holds_first = k.holds_first;
        rejects = k.rejects;
        accepts = k.accepts;
      } in
      rw k.found (
        is_new_value-expected prog (touch_value m p sid v) bid first v k',
        is_new_value-IsCached prog (touch_value m p sid v) bid first v k',
      )
