-- ===== src/Solver/Range.antt =====
-- klee/lib/Solver/Solver.cpp: Solver::getRange, by three binary searches.
use cgs.Prelude.{
  ℕ, zero, suc, ◌+◌, ◌-◌, ◌/◌, ◌^◌, Bool, true, false, Option, none, some, ◌==◌, leb, ltb,
  if◌then◌else◌, ◌>>=◌,
}
use cgs.Solver.Query.{
  Query, constant, itself, is_zero, shifted_is_zero, at_most, Validity, is_true, is_false,
  is_unknown, evaluate, must_be_true, may_be_true,
}

-- `while (lo < hi)`: the answer at the middle takes the lower or the upper half. The first argument is
-- fuel, and running out of it `none`, as is a failed assertion.
unfoldable pub halve : ℕ → (ℕ → Option Bool) → ℕ → ℕ → Option ℕ
halve zero ask lo hi = if ltb lo hi then none else some lo
halve (suc n) ask lo hi = elim (ltb lo hi) [
  | false ↦ some lo
  | true ↦ ask (lo + (hi - lo) / 2) >>= λ res. elim res [
    | true ↦ halve n ask lo (lo + (hi - lo) / 2)
    | false ↦ halve n ask (suc (lo + (hi - lo) / 2)) hi
  ]
]

-- bits64::maxValueOfNBits
unfoldable pub max_value_of_n_bits : ℕ → Option ℕ
max_value_of_n_bits n = if leb n 64 then some (2 ^ n - 1) else none

-- The expression whose range is asked for: its width, and its value where it is a constant.
pub record Expr : Type 0 where
  pub width : ℕ
  pub value : Option ℕ

abbrev pub bit_query : Expr → Query
bit_query e = elim e.value [ none ↦ itself | some c ↦ constant (c == 1) ]

abbrev pub bit_range : Validity → ℕ × ℕ
bit_range is_true = (1, 1)
bit_range is_false = (0, 0)
bit_range is_unknown = (0, 1)

-- 64 halvings are enough for numbers of 64 bits.
module _ (compute_truth : Query → Option Bool) where
  unfoldable pub find_min : ℕ → Option ℕ
  find_min bits = do
    zero_fits ← may_be_true compute_truth is_zero
    if zero_fits then some 0 else (do
      top ← max_value_of_n_bits bits
      halve 64 (λ k. may_be_true compute_truth (at_most k)) 0 top)

  unfoldable pub find_range : ℕ → Option (ℕ × ℕ)
  find_range width = do
    bits ← halve 64 (λ k. must_be_true compute_truth (shifted_is_zero k)) 0 width
    min ← find_min bits
    top ← max_value_of_n_bits bits
    max ← halve 64 (λ k. must_be_true compute_truth (at_most k)) min top
    some (min, max)

  unfoldable pub get_range : Expr → Option (ℕ × ℕ)
  get_range e = elim (e.width == 1) [
    | true ↦ (do result ← evaluate compute_truth (bit_query e); some (bit_range result))
    | false ↦ elim e.value [ some c ↦ some (c, c) | none ↦ find_range e.width ]
  ]
