-- ===== src/Expr/Words.antt =====
-- Addition and subtraction of numbers below a modulus, as llvm::APInt has them.
use cgs.Prelude.{ℕ, ◌+◌, ◌-◌, ◌%◌, ◌<◌, ◌≡◌, ◌∙◌, ap, ◌⊎◌, inl, inr, ◌↔◌, arith}
use native.Mathlib.Nat.{mod-eq_of_lt, mod-eq-sub-mod}
use native.Mathlib.Decide.{dec_lt}

abbrev pub plus : ℕ → ℕ → ℕ → ℕ
plus m a b = (a + b) % m

abbrev pub minus : ℕ → ℕ → ℕ → ℕ
minus m a b = (a + (m - b)) % m

abbrev pub negate : ℕ → ℕ → ℕ
negate m a = (m - a) % m

mod_once : (m x : ℕ) → x < m + m → ((x % m ≡ x) × (x < m)) ⊎ ((x % m + m ≡ x) × (x % m < m))
mod_once m x h = elim (dec_lt x m) [
  | yes l ↦ inl (mod-eq_of_lt l, l)
  | no l ↦ inr (
      let s : x % m ≡ x - m = mod-eq-sub-mod (omega arith) ∙ mod-eq_of_lt (omega arith) in
      (omega (arith, s), omega (arith, s)))
]

-- The result as a number: at most one modulus is left out.
abbrev Sum : ℕ → ℕ → ℕ → ℕ → Type 0
Sum m a b s = (s < m) × ((s ≡ a + b) ⊎ (s + m ≡ a + b))

plus-Sum : (m a b : ℕ) → a < m → b < m → Sum m a b (plus m a b)
plus-Sum m a b h k = ground (arith, mod_once m (a + b) (omega arith))

minus-Sum :
    (m a b : ℕ) → a < m → b < m → Sum m (minus m a b) b a × (minus m a b < m) × (minus m a b < m)
minus-Sum m a b h k = ground (arith, mod_once m (a + (m - b)) (omega arith))

pub minus-lt : (m a b : ℕ) → a < m → b < m → minus m a b < m
minus-lt m a b h k = (minus-Sum m a b h k).1

pub plus-lt : (m a b : ℕ) → a < m → b < m → plus m a b < m
plus-lt m a b h k = (plus-Sum m a b h k).0

pub negate-minus : (m a : ℕ) → negate m a ≡ minus m 0 a
negate-minus m a = ap (λ (x : ℕ). x % m) (omega arith)

pub zero_plus : (m a : ℕ) → a < m → plus m 0 a ≡ a
zero_plus m a h = ground (arith, plus-Sum m 0 a (omega arith) h)

pub plus_comm : (m a b : ℕ) → a < m → b < m → plus m b a ≡ plus m a b
plus_comm m a b ha hb = ground (arith, plus-Sum m b a hb ha, plus-Sum m a b ha hb)

pub plus_assoc :
    (m a b c : ℕ) → a < m → b < m → c < m → plus m (plus m a b) c ≡ plus m a (plus m b c)
plus_assoc m a b c ha hb hc =
    let s0 = plus-lt m a b ha hb in
    let s2 = plus-lt m b c hb hc in
    ground (
      arith,
      plus-Sum m a b ha hb,
      plus-Sum m (plus m a b) c s0 hc,
      plus-Sum m b c hb hc,
      plus-Sum m a (plus m b c) ha s2,
    )

pub plus_swap :
    (m a b c : ℕ) → a < m → b < m → c < m → plus m (plus m a b) c ≡ plus m a (plus m c b)
plus_swap m a b c ha hb hc =
    let s0 = plus-lt m a b ha hb in
    let s2 = plus-lt m c b hc hb in
    ground (
      arith,
      plus-Sum m a b ha hb,
      plus-Sum m (plus m a b) c s0 hc,
      plus-Sum m c b hc hb,
      plus-Sum m a (plus m c b) ha s2,
    )

pub sum_difference :
    (m a b c : ℕ) → a < m → b < m → c < m → minus m (plus m a b) c ≡ plus m a (minus m b c)
sum_difference m a b c ha hb hc =
    let s0 = plus-lt m a b ha hb in
    let s2 = minus-lt m b c hb hc in
    ground (
      arith,
      plus-Sum m a b ha hb,
      minus-Sum m (plus m a b) c s0 hc,
      minus-Sum m b c hb hc,
      plus-Sum m a (minus m b c) ha s2,
    )

pub difference_sum :
    (m a b c : ℕ) → a < m → b < m → c < m → plus m (minus m a b) c ≡ plus m a (minus m c b)
difference_sum m a b c ha hb hc =
    let s0 = minus-lt m a b ha hb in
    let s2 = minus-lt m c b hc hb in
    ground (
      arith,
      minus-Sum m a b ha hb,
      plus-Sum m (minus m a b) c s0 hc,
      minus-Sum m c b hc hb,
      plus-Sum m a (minus m c b) ha s2,
    )

pub plus_left :
    (m a b c : ℕ) → a < m → b < m → c < m → plus m b (plus m a c) ≡ plus m a (plus m b c)
plus_left m a b c ha hb hc =
    let s0 = plus-lt m a c ha hc in
    let s2 = plus-lt m b c hb hc in
    ground (
      arith,
      plus-Sum m a c ha hc,
      plus-Sum m b (plus m a c) hb s0,
      plus-Sum m b c hb hc,
      plus-Sum m a (plus m b c) ha s2,
    )

pub plus_right :
    (m a b c : ℕ) → a < m → b < m → c < m → plus m c (plus m a b) ≡ plus m a (plus m b c)
plus_right m a b c ha hb hc =
    let s0 = plus-lt m a b ha hb in
    let s2 = plus-lt m b c hb hc in
    ground (
      arith,
      plus-Sum m a b ha hb,
      plus-Sum m c (plus m a b) hc s0,
      plus-Sum m b c hb hc,
      plus-Sum m a (plus m b c) ha s2,
    )

pub sum_difference_left :
    (m a b c : ℕ) → a < m → b < m → c < m → plus m b (minus m a c) ≡ plus m a (minus m b c)
sum_difference_left m a b c ha hb hc =
    let s0 = minus-lt m a c ha hc in
    let s2 = minus-lt m b c hb hc in
    ground (
      arith,
      minus-Sum m a c ha hc,
      plus-Sum m b (minus m a c) hb s0,
      minus-Sum m b c hb hc,
      plus-Sum m a (minus m b c) ha s2,
    )

pub minus_negate :
    (m a b c : ℕ)
    → a < m
    → b < m
    → c < m
    → plus m (minus m 0 c) (plus m a b) ≡ plus m a (minus m b c)
minus_negate m a b c ha hb hc =
    let hz : 0 < m = omega arith in
    let s0 = minus-lt m 0 c hz hc in
    let s1 = plus-lt m a b ha hb in
    let s3 = minus-lt m b c hb hc in
    ground (
      arith,
      minus-Sum m 0 c hz hc,
      plus-Sum m a b ha hb,
      plus-Sum m (minus m 0 c) (plus m a b) s0 s1,
      minus-Sum m b c hb hc,
      plus-Sum m a (minus m b c) ha s3,
    )

pub minus_add :
    (m a b c : ℕ) → a < m → b < m → c < m → minus m (minus m a b) c ≡ minus m a (plus m b c)
minus_add m a b c ha hb hc =
    let s0 = minus-lt m a b ha hb in
    let s2 = plus-lt m b c hb hc in
    ground (
      arith,
      minus-Sum m a b ha hb,
      minus-Sum m (minus m a b) c s0 hc,
      plus-Sum m b c hb hc,
      minus-Sum m a (plus m b c) ha s2,
    )

pub minus_add_swap :
    (m a b c : ℕ) → a < m → b < m → c < m → minus m (minus m a b) c ≡ minus m a (plus m c b)
minus_add_swap m a b c ha hb hc =
    let s0 = minus-lt m a b ha hb in
    let s2 = plus-lt m c b hc hb in
    ground (
      arith,
      minus-Sum m a b ha hb,
      minus-Sum m (minus m a b) c s0 hc,
      plus-Sum m c b hc hb,
      minus-Sum m a (plus m c b) ha s2,
    )

pub minus_sub :
    (m a b c : ℕ) → a < m → b < m → c < m → plus m (minus m a b) c ≡ minus m a (minus m b c)
minus_sub m a b c ha hb hc =
    let s0 = minus-lt m a b ha hb in
    let s2 = minus-lt m b c hb hc in
    ground (
      arith,
      minus-Sum m a b ha hb,
      plus-Sum m (minus m a b) c s0 hc,
      minus-Sum m b c hb hc,
      minus-Sum m a (minus m b c) ha s2,
    )

pub minus_sub_right :
    (m a b c : ℕ) → a < m → b < m → c < m → minus m (plus m a c) b ≡ minus m a (minus m b c)
minus_sub_right m a b c ha hb hc =
    let s0 = plus-lt m a c ha hc in
    let s2 = minus-lt m b c hb hc in
    ground (
      arith,
      plus-Sum m a c ha hc,
      minus-Sum m (plus m a c) b s0 hb,
      minus-Sum m b c hb hc,
      minus-Sum m a (minus m b c) ha s2,
    )

pub negate_plus : (m a b : ℕ) → a < m → b < m → plus m (minus m 0 b) a ≡ minus m a b
negate_plus m a b ha hb =
    let hz : 0 < m = omega arith in
    let s0 = minus-lt m 0 b hz hb in
    ground (arith, minus-Sum m 0 b hz hb, plus-Sum m (minus m 0 b) a s0 ha, minus-Sum m a b ha hb)

pub sum_difference_right :
    (m a b c : ℕ) → a < m → b < m → c < m → plus m a (minus m b c) ≡ minus m (plus m a b) c
sum_difference_right m a b c ha hb hc =
    let s0 = minus-lt m b c hb hc in
    let s2 = plus-lt m a b ha hb in
    ground (
      arith,
      minus-Sum m b c hb hc,
      plus-Sum m a (minus m b c) ha s0,
      plus-Sum m a b ha hb,
      minus-Sum m (plus m a b) c s2 hc,
    )

pub negate_minus_left :
    (m a b c : ℕ)
    → a < m
    → b < m
    → c < m
    → plus m (minus m 0 b) (minus m a c) ≡ minus m a (plus m b c)
negate_minus_left m a b c ha hb hc =
    let hz : 0 < m = omega arith in
    let s0 = minus-lt m 0 b hz hb in
    let s1 = minus-lt m a c ha hc in
    let s3 = plus-lt m b c hb hc in
    ground (
      arith,
      minus-Sum m 0 b hz hb,
      minus-Sum m a c ha hc,
      plus-Sum m (minus m 0 b) (minus m a c) s0 s1,
      plus-Sum m b c hb hc,
      minus-Sum m a (plus m b c) ha s3,
    )

pub negate_minus_right :
    (m a b c : ℕ)
    → a < m
    → b < m
    → c < m
    → plus m (minus m 0 c) (minus m a b) ≡ minus m a (plus m b c)
negate_minus_right m a b c ha hb hc =
    let hz : 0 < m = omega arith in
    let s0 = minus-lt m 0 c hz hc in
    let s1 = minus-lt m a b ha hb in
    let s3 = plus-lt m b c hb hc in
    ground (
      arith,
      minus-Sum m 0 c hz hc,
      minus-Sum m a b ha hb,
      plus-Sum m (minus m 0 c) (minus m a b) s0 s1,
      plus-Sum m b c hb hc,
      minus-Sum m a (plus m b c) ha s3,
    )

pub negate_sub :
    (m a b c : ℕ)
    → a < m
    → b < m
    → c < m
    → plus m (minus m 0 b) (plus m a c) ≡ minus m a (minus m b c)
negate_sub m a b c ha hb hc =
    let hz : 0 < m = omega arith in
    let s0 = minus-lt m 0 b hz hb in
    let s1 = plus-lt m a c ha hc in
    let s3 = minus-lt m b c hb hc in
    ground (
      arith,
      minus-Sum m 0 b hz hb,
      plus-Sum m a c ha hc,
      plus-Sum m (minus m 0 b) (plus m a c) s0 s1,
      minus-Sum m b c hb hc,
      minus-Sum m a (minus m b c) ha s3,
    )

pub sub_sub :
    (m a b c : ℕ) → a < m → b < m → c < m → plus m c (minus m a b) ≡ minus m a (minus m b c)
sub_sub m a b c ha hb hc =
    let s0 = minus-lt m a b ha hb in
    let s2 = minus-lt m b c hb hc in
    ground (
      arith,
      minus-Sum m a b ha hb,
      plus-Sum m c (minus m a b) hc s0,
      minus-Sum m b c hb hc,
      minus-Sum m a (minus m b c) ha s2,
    )

pub minus_moved : (m a b c : ℕ) → a < m → b < m → c < m → (minus m a b ≡ c) ↔ (a ≡ plus m b c)
minus_moved m a b c ha hb hc = ground (arith, minus-Sum m a b ha hb, plus-Sum m b c hb hc)

pub minus_turned : (m a b c : ℕ) → a < m → b < m → c < m → (minus m b a ≡ c) ↔ (a ≡ minus m b c)
minus_turned m a b c ha hb hc = ground (arith, minus-Sum m b a hb ha, minus-Sum m b c hb hc)

pub minus_self : (m a : ℕ) → a < m → 0 ≡ minus m a a
minus_self m a h = ground (arith, minus-Sum m a a h h)
