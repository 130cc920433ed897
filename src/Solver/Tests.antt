-- ===== src/Solver/Tests.antt =====
-- klee/lib/Solver/Solver.cpp: a byte that is 5 or 9, and an implementation that tries both.
use cgs.Prelude.{
  ℕ, ◌^◌, ◌<◌, ◌≤◌, ◌≡◌, ◌⊎◌, inl, inr, refl, Bool, true, false, ◌&&◌, Option, none, some,
  Bool-cases, arith, if◌then◌else◌,
}
use cgs.Solver.Query.{
  Query, at_most, negated, eval, negate_expr, evaluate, must_be_true, must_be_false, may_be_true,
  may_be_false, is_true, is_false, is_unknown,
}
use cgs.Solver.Range.{halve, max_value_of_n_bits, Expr, find_min, find_range, get_range}
use cgs.Solver.Halving.{Found, halve_lem}
use cgs.Solver.Truth.{Always, Sometimes, IsSound, queries_lem}
use cgs.Solver.RangeLaws.{IsRange, get_range_lem}

abbrev value : Bool → ℕ
value b = if b then 9 else 5

abbrev compute_truth : Query → Option Bool
compute_truth q = some (eval q 5 && eval q 9)

both_hold : (q : Query) → eval q 9 ≡ true → eval q 5 ≡ true → (m : Bool) → eval q (value m) ≡ true
both_hold q high low true = high
both_hold q high low false = low

sound : IsSound value compute_truth
sound = record {
  answers = λ q e. elim (Bool-cases (eval q 5)) [
    | inr low ↦ inr (ground arith, (false, low))
    | inl low ↦ elim (Bool-cases (eval q 9)) [
      | inr high ↦ inr (ground arith, (true, high))
      | inl high ↦ inl (ground arith, both_hold q high low)
    ]
  ];
}

abbrev byte : Expr
byte = record { width = 8; value = none }

byte_run : get_range compute_truth byte ≡ some (5, 9)
unfolding get_range find_range find_min halve max_value_of_n_bits must_be_true must_be_false
    may_be_true negate_expr
byte_run = refl

below_byte : (m : Bool) → value m < 2 ^ 8
below_byte true = ground arith
below_byte false = ground arith

get_range_lem_example :
    (min max : ℕ) × (get_range compute_truth byte ≡ some (min, max))
    × IsRange value compute_truth sound true min max
get_range_lem_example =
    get_range_lem value compute_truth sound true byte (ground arith) below_byte (λ c h. cc)

queries_lem_example :
    (((evaluate compute_truth (at_most 7) ≡ some is_true) × Always value true (at_most 7))
      ⊎ ((evaluate compute_truth (at_most 7) ≡ some is_false) × Always value false (at_most 7))
      ⊎ ((evaluate compute_truth (at_most 7) ≡ some is_unknown)
          × Sometimes value true (at_most 7)
          × Sometimes value false (at_most 7)))
    × (((must_be_true compute_truth (at_most 7) ≡ some true) × Always value true (at_most 7))
        ⊎ ((must_be_true compute_truth (at_most 7) ≡ some false)
            × Sometimes value false (at_most 7)))
    × (((must_be_false compute_truth (at_most 7) ≡ some true) × Always value false (at_most 7))
        ⊎ ((must_be_false compute_truth (at_most 7) ≡ some false)
            × Sometimes value true (at_most 7)))
    × (((may_be_true compute_truth (at_most 7) ≡ some true) × Sometimes value true (at_most 7))
        ⊎ ((may_be_true compute_truth (at_most 7) ≡ some false) × Always value false (at_most 7)))
    × (((may_be_false compute_truth (at_most 7) ≡ some true) × Sometimes value false (at_most 7))
        ⊎ ((may_be_false compute_truth (at_most 7) ≡ some false) × Always value true (at_most 7)))
queries_lem_example = queries_lem value compute_truth sound true (at_most 7)

-- The least number above 5, by halving from 0 to 9.
halve_lem_example :
    (r : ℕ) × (halve 4 (λ k. some (eval (negated (at_most 5)) k)) 0 9 ≡ some r)
    × Found (λ k. some (eval (negated (at_most 5)) k)) (λ k. 5 < k) (λ k. k ≤ 5) 0 9 r
halve_lem_example =
    halve_lem (λ k. some (eval (negated (at_most 5)) k)) (λ k. 5 < k) (λ k. k ≤ 5) 4 0 9
      (λ k. elim (Bool-cases (eval (at_most 5) k)) [
        | inl e ↦ inr (ground arith, ground arith)
        | inr e ↦ inl (ground arith, ground arith)
      ])
      (ground arith) (ground arith) (ground arith)
