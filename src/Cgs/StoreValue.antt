-- ===== src/Cgs/StoreValue.antt =====
-- klee/lib/Core/Searcher.cpp: CGSSearcher::isNewStoreValue.
use Prim.Native.Nat.{bit_and, bit_or}
use Prim.Native.String.{String}
use text.Mathlib.Text.{◌==◌ as str_eq}
use cgs.Prelude.{
  ℕ, ◌+◌, ◌%◌, ◌^◌, Bool, true, false, not, Option, none, some, List, [], ◌∷◌, ltb, ◌==◌,
  if◌then◌else◌, mem,
}
use cgs.Cgs.State.{
  Predicate, icmp_eq, icmp_ne, icmp_sgt, icmp_ugt, icmp_slt, icmp_ult, icmp_sge, icmp_uge, icmp_sle,
  icmp_ule, invalid, BdDep, Program, Memory, put,
}

-- `a < b` on 32-bit patterns read as signed numbers.
unfoldable pub signed_lt : ℕ → ℕ → Bool
signed_lt a b = ltb ((a + 2 ^ 31) % 2 ^ 32) ((b + 2 ^ 31) % 2 ^ 32)

-- The comparison by the uncovered predicate: a signed one also for the unsigned codes.
unfoldable pub compare_value : Predicate → ℕ → ℕ → Bool
compare_value icmp_eq v c = v == c
compare_value icmp_ne v c = not (v == c)
compare_value icmp_sgt v c = signed_lt c v
compare_value icmp_ugt v c = signed_lt c v
compare_value icmp_slt v c = signed_lt v c
compare_value icmp_ult v c = signed_lt v c
compare_value icmp_sge v c = not (signed_lt v c)
compare_value icmp_uge v c = not (signed_lt v c)
compare_value icmp_sle v c = not (signed_lt c v)
compare_value icmp_ule v c = not (signed_lt c v)
compare_value invalid v c = false

-- `value &= arith_var` or `value |= arith_var`
unfoldable pub update_value : String → ℕ → ℕ → ℕ
update_value op a v =
    if str_eq op ""
    then v
    else (let v' = if str_eq op "and" then bit_and v a else v in
        if str_eq op "or" then bit_or v' a else v')

-- The value that a test leaves in the variable, which goes into a cache: a `br` changes it in place.
unfoldable pub tested_value : BdDep → ℕ → ℕ
tested_value d v = if d.is_switch then v else update_value d.arith_op d.arith_var v

-- Whether a value that neither cache holds leads to an uncovered side of the branch.
unfoldable pub covers_new : BdDep → ℕ → Bool
covers_new d v =
    if d.is_switch
    then mem v d.un_covered_values
    else compare_value d.un_covered_pred (update_value d.arith_op d.arith_var v) d.constant

-- `insert` on an unordered set
abbrev pub insert : ℕ → List ℕ → List ℕ
insert v vs = if mem v vs then vs else v ∷ vs

-- `storeValues[sid]`, which makes an entry 0 where there is none.
abbrev pub value_or_zero : Option ℕ → ℕ
value_or_zero none = 0
value_or_zero (some v) = v

abbrev pub touch_value : Memory → ℕ → ℕ → ℕ → Memory
touch_value m p sid v = record m {
  heap =
      put m.heap p (record (m.heap p) { store_values = put (m.heap p).store_values sid (some v) });
}

-- The decision for a value and a branch whose cache of invalid values is given.
unfoldable pub is_new_value : Program → Memory → ℕ → ℕ → Option (List ℕ) → Bool × Memory
is_new_value prog m bid v none =
    (true, record m { invalid_store_values = put m.invalid_store_values bid (some (v ∷ [])) })
is_new_value prog m bid v (some bad) =
    let good = m.valid_store_values bid in
    let find_new : Bool =
      if mem v bad then false else if mem v good then true else covers_new (prog.dep bid) v in
    let v' = if mem v bad then v else if mem v good then v else tested_value (prog.dep bid) v in
    if find_new
    then (true, record m { valid_store_values = put m.valid_store_values bid (insert v' good) })
    else (
      false,
      record m { invalid_store_values = put m.invalid_store_values bid (some (insert v' bad)) },
    )

unfoldable pub is_new_store_value : Program → Memory → ℕ → ℕ → ℕ → Bool × Memory
unfolding is_new_value
is_new_store_value prog m p bid sid =
    let v = value_or_zero ((m.heap p).store_values sid) in
    is_new_value prog (touch_value m p sid v) bid v (m.invalid_store_values bid)
