-- ===== src/Solver/RangeLaws.antt =====
-- klee/lib/Solver/Solver.cpp: getRange finds the least and the greatest value.
use cgs.Prelude.{
  ℕ, zero, suc, ◌+◌, ◌-◌, ◌*◌, ◌/◌, ◌%◌, ◌^◌, ◌<◌, ◌≤◌, ◌≡◌, ap, inl, inr, Bool, true, Option, some,
  ◌==◌, Option-cases, Bool-cases, arith, ==_iff,
}
use native.Mathlib.Nat.{div-add-mod, mod-lt, pow-le-pow_right}
use cgs.Solver.Query.{
  Query, is_zero, shifted_is_zero, at_most, eval, Validity, is_true, is_false, is_unknown, evaluate,
  must_be_true, may_be_true,
}
use cgs.Solver.Range.{
  halve, max_value_of_n_bits, Expr, bit_query, bit_range, find_min, find_range, get_range,
}
use cgs.Solver.Halving.{halve_lem}
use cgs.Solver.Truth.{IsSound, must_be_true_lem, may_be_true_lem, evaluate_lem}

pow-positive : (n : ℕ) → 0 < 2 ^ n
pow-positive zero = omega arith
pow-positive (suc n) = omega (arith, pow-positive n)

below_shift : (v k : ℕ) → (v / 2 ^ k == 0) ≡ true → v < 2 ^ k
below_shift v k h =
    let none_left : v / 2 ^ k ≡ 0 = (==_iff (v / 2 ^ k) 0).0 h in
    let whole : 2 ^ k * (v / 2 ^ k) + v % 2 ^ k ≡ v = div-add-mod v (2 ^ k) in
    let rest : 2 ^ k * 0 + v % 2 ^ k ≡ v = rw none_left at whole in
    omega (arith, rest, mod-lt v (pow-positive k))

module _ {M : Type 0} (value : M → ℕ) (compute_truth : Query → Option Bool)
    (sound : IsSound value compute_truth) (some_model : M) where
  abbrev pub IsBelow : ℕ → Type 0
  IsBelow k = (m : M) → value m < k

  bits-IsBelow :
      (width : ℕ)
      → width ≤ 64
      → IsBelow (2 ^ width)
      → (bits : ℕ) × (halve 64 (λ k. must_be_true compute_truth (shifted_is_zero k)) 0 width
          ≡ some bits)
        × (bits ≤ width)
        × IsBelow (2 ^ bits)
  bits-IsBelow width le bound =
      let (bits, run, (_, top, y, _)) =
        halve_lem (λ k. must_be_true compute_truth (shifted_is_zero k)) (λ k. IsBelow (2 ^ k))
          (λ k. Unit {0}) 64 0 width
          (λ k. elim (must_be_true_lem value compute_truth sound some_model (shifted_is_zero k)) [
            | inl (said, all) ↦ inl (said, λ m. below_shift (value m) k (all m))
            | inr (said, one) ↦ inr (said, tt)
          ])
          (omega arith) (ground arith) bound in
      (bits, run, top, y)

  fits_fuel : (bits lo : ℕ) → bits ≤ 64 → 2 ^ bits - 1 - lo < 2 ^ 64
  fits_fuel bits lo le =
      let capped : 2 ^ bits ≤ 2 ^ 64 = pow-le-pow_right (omega arith) le in omega (arith, capped)

  -- By halving: the least and, from a lower bound that is attained, the greatest value.
  least_lem :
      (bits : ℕ)
      → bits ≤ 64
      → IsBelow (2 ^ bits)
      → (min : ℕ) × (halve 64 (λ k. may_be_true compute_truth (at_most k)) 0 (2 ^ bits - 1)
          ≡ some min)
        × ((m : M) → min ≤ value m)
        × ((m : M) × (value m ≡ min))
  least_lem bits le bound =
      let (min, run, (_, _, (m, y), split)) =
        halve_lem (λ k. may_be_true compute_truth (at_most k)) (λ k. (m : M) × (value m ≤ k))
          (λ k. (m : M) → k < value m) 64 0 (2 ^ bits - 1)
          (λ k. elim (may_be_true_lem value compute_truth sound some_model (at_most k)) [
            | inl (said, (m, one)) ↦ inl (said, (m, ground arith))
            | inr (said, all) ↦ inr (said, λ m. ground (arith, all m))
          ])
          (omega arith) (fits_fuel bits 0 le) (some_model, omega (arith, bound some_model)) in
      let above : (n : M) → min ≤ value n =
        λ n. elim split [ inl e ↦ omega arith | inr (lt, no_less) ↦ omega (arith, no_less n) ] in
      (min, run, above, (m, omega (arith, above m)))

  greatest_lem :
      (bits min : ℕ)
      → bits ≤ 64
      → IsBelow (2 ^ bits)
      → ((m : M) → min ≤ value m)
      → ((m : M) × (value m ≡ min))
      → (max : ℕ) × (halve 64 (λ k. must_be_true compute_truth (at_most k)) min (2 ^ bits - 1)
          ≡ some max)
        × ((m : M) → value m ≤ max)
        × ((m : M) × (value m ≡ max))
  greatest_lem bits min le bound least (lowest, at_min) =
      let (max, run, (_, _, below, split)) =
        halve_lem (λ k. must_be_true compute_truth (at_most k)) (λ k. (m : M) → value m ≤ k)
          (λ k. (m : M) × (k < value m)) 64 min (2 ^ bits - 1)
          (λ k. elim (must_be_true_lem value compute_truth sound some_model (at_most k)) [
            | inl (said, all) ↦ inl (said, λ m. ground (arith, all m))
            | inr (said, (m, one)) ↦ inr (said, (m, ground arith))
          ])
          (omega (arith, bound some_model, least some_model)) (fits_fuel bits min le)
          (λ m. omega (arith, bound m)) in
      (
        max,
        run,
        below,
        elim split [
          | inl e ↦ (lowest, omega arith)
          | inr (lt, (m, more)) ↦ (m, omega (arith, below m))
        ],
      )

  find_min_lem :
      (bits : ℕ)
      → bits ≤ 64
      → IsBelow (2 ^ bits)
      → (min : ℕ) × (find_min compute_truth bits ≡ some min)
        × ((m : M) → min ≤ value m)
        × ((m : M) × (value m ≡ min))
  unfolding find_min max_value_of_n_bits
  find_min_lem bits le bound = elim (may_be_true_lem value compute_truth sound some_model is_zero) [
    | inl (said, (m, fits)) ↦ (0, ground arith, λ n. omega arith, (m, ground arith))
    | inr (said, all) ↦
        let (min, run, least, attained) = least_lem bits le bound in
        (min, ground (arith, said, run), least, attained)
  ]

  -- The bounds hold under every assignment and each is attained.
  abbrev pub IsRange : ℕ → ℕ → Type 0
  IsRange min max =
      ((m : M) → (min ≤ value m) × (value m ≤ max))
      × ((m : M) × (value m ≡ min))
      × ((m : M) × (value m ≡ max))

  find_range_lem :
      (width : ℕ)
      → width ≤ 64
      → IsBelow (2 ^ width)
      → (min max : ℕ) × (find_range compute_truth width ≡ some (min, max)) × IsRange min max
  unfolding find_range max_value_of_n_bits
  find_range_lem width le bound =
      let (bits, run_bits, fewer, smaller) = bits-IsBelow width le bound in
      let (min, run_min, least, lowest) = find_min_lem bits (omega arith) smaller in
      let (max, run_max, most, highest) =
        greatest_lem bits min (omega arith) smaller least lowest in
      (
        min,
        max,
        ground (arith, run_bits, run_min, run_max),
        ((λ m. (least m, most m)), lowest, highest),
      )

  bit_value :
      (e : Expr)
      → ((c : ℕ) → e.value ≡ some c → (m : M) → value m ≡ c)
      → (m : M) → eval (bit_query e) (value m) ≡ (value m == 1)
  bit_value e denotes m = elim (Option-cases e.value) [
    | inl none_given ↦ ground arith
    | inr (c, given) ↦ ground (arith, denotes c given m)
  ]

  bit_range_lem :
      (e : Expr)
      → ((c : ℕ) → e.value ≡ some c → (m : M) → value m ≡ c)
      → IsBelow 2
      → (v : Validity) × (evaluate compute_truth (bit_query e) ≡ some v)
        × IsRange (bit_range v).0 (bit_range v).1
  bit_range_lem e denotes bound =
      elim (evaluate_lem value compute_truth sound some_model (bit_query e)) [
        | inl (said, all) ↦
            let one : (m : M) → value m ≡ 1 = λ m. ground (arith, all m, bit_value e denotes m) in
            (
              is_true,
              said,
              (
                (λ m. (omega (arith, one m), omega (arith, one m))),
                (some_model, one some_model),
                (some_model, one some_model),
              ),
            )
        | inr (inl (said, all)) ↦
            let zero_always : (m : M) → value m ≡ 0 =
              λ m. ground (arith, all m, bit_value e denotes m, bound m) in
            (
              is_false,
              said,
              (
                (λ m. (omega (arith, zero_always m), omega (arith, zero_always m))),
                (some_model, zero_always some_model),
                (some_model, zero_always some_model),
              ),
            )
        | inr (inr (said, (m, yes_at), (n, no_at))) ↦ (
          is_unknown,
          said,
          (
            (λ k. (omega arith, omega (arith, bound k))),
            (n, ground (arith, no_at, bit_value e denotes n, bound n)),
            (m, ground (arith, yes_at, bit_value e denotes m)),
          ),
        )
      ]

  -- For an expression of at most 64 bits, constant or not, Solver::getRange succeeds, and gives
  -- the least and the greatest value that the expression takes under the assignments that satisfy
  -- the constraints, where there is such an assignment, the implementation is sound, the values
  -- fit the width and a constant has its value.
  pub get_range_lem :
      (e : Expr)
      → e.width ≤ 64
      → IsBelow (2 ^ e.width)
      → ((c : ℕ) → e.value ≡ some c → (m : M) → value m ≡ c)
      → (min max : ℕ) × (get_range compute_truth e ≡ some (min, max)) × IsRange min max
  unfolding get_range
  get_range_lem e le bound denotes = elim (Bool-cases (e.width == 1)) [
    | inl one ↦
        let (v, said, range) =
          bit_range_lem e denotes
            (λ m. omega (arith, bound m, ap (λ w. 2 ^ w) ((==_iff e.width 1).0 one))) in
        ((bit_range v).0, (bit_range v).1, ground (arith, one, said), range)
    | inr many ↦ elim (Option-cases e.value) [
      | inr (c, given) ↦ (
        c,
        c,
        ground (arith, many, given),
        (
          (λ m. (omega (arith, denotes c given m), omega (arith, denotes c given m))),
          (some_model, denotes c given some_model),
          (some_model, denotes c given some_model),
        ),
      )
      | inl none_given ↦
          let (min, max, run, range) = find_range_lem e.width le bound in
          (min, max, ground (arith, many, none_given, run), range)
    ]
  ]
