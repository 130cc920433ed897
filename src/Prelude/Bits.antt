-- ===== src/Prelude/Bits.antt =====
-- `&=` and `|=` with a mask: a second application changes nothing.
use Prim.Native.Nat.{
  ℕ, zero, suc, ◌+◌, ◌*◌, ◌/◌, ◌%◌, ◌≤◌, min, max, digits, bit_and, bit_or, bit_and-bitwise,
  bit_or-bitwise,
}
use mathlib.Core.Path.{◌≡◌, refl, ap}
use native.Mathlib.Omega.{arith}

-- More fuel than the first number has digits changes nothing.
digits_enough :
    (z : ℕ → ℕ) (f : ℕ → ℕ → ℕ) (m n a b : ℕ) → a ≤ m → a ≤ n → digits z f m a b ≡ digits z f n a b
digits_enough z f zero zero a b h k = refl
digits_enough z f zero (suc n) zero b h k = refl
digits_enough z f zero (suc n) (suc a) b h k = absurd (omega arith)
digits_enough z f (suc m) zero zero b h k = refl
digits_enough z f (suc m) zero (suc a) b h k = absurd (omega arith)
digits_enough z f (suc m) (suc n) zero b h k = refl
digits_enough z f (suc m) (suc n) (suc a) b h k =
    ap (λ (t : ℕ). t * 2 + f (suc a % 2) (b % 2))
      (digits_enough z f m n (suc a / 2) (b / 2) (omega arith) (omega arith))

pub bit_and_low : (a b : ℕ) → bit_and a b ≡ bit_and (a / 2) (b / 2) * 2 + min (a % 2) (b % 2)
bit_and_low zero b = omega (arith, bit_and-bitwise 0 b, bit_and-bitwise 0 (b / 2))
bit_and_low (suc a) b = omega (
  arith,
  bit_and-bitwise (suc a) b,
  bit_and-bitwise (suc a / 2) (b / 2),
  digits_enough (λ y. 0) min a (suc a / 2) (suc a / 2) (b / 2) (omega arith) (omega arith),
)

pub bit_or_low : (a b : ℕ) → bit_or a b ≡ bit_or (a / 2) (b / 2) * 2 + max (a % 2) (b % 2)
bit_or_low zero b = omega (arith, bit_or-bitwise 0 b, bit_or-bitwise 0 (b / 2))
bit_or_low (suc a) b = omega (
  arith,
  bit_or-bitwise (suc a) b,
  bit_or-bitwise (suc a / 2) (b / 2),
  digits_enough (λ y. y) max a (suc a / 2) (suc a / 2) (b / 2) (omega arith) (omega arith),
)

half-bit_and : (v a : ℕ) → bit_and v a / 2 ≡ bit_and (v / 2) (a / 2)
half-bit_and v a = omega (arith, bit_and_low v a)

odd-bit_and : (v a : ℕ) → bit_and v a % 2 ≡ min (v % 2) (a % 2)
odd-bit_and v a = omega (arith, bit_and_low v a)

half-bit_or : (v a : ℕ) → bit_or v a / 2 ≡ bit_or (v / 2) (a / 2)
half-bit_or v a = omega (arith, bit_or_low v a)

odd-bit_or : (v a : ℕ) → bit_or v a % 2 ≡ max (v % 2) (a % 2)
odd-bit_or v a = omega (arith, bit_or_low v a)

bit_and_twice_fuel : (n v a : ℕ) → v ≤ n → bit_and (bit_and v a) a ≡ bit_and v a
bit_and_twice_fuel n zero a h =
    omega (arith, bit_and-bitwise 0 a, ap (λ (t : ℕ). bit_and t a) (bit_and-bitwise 0 a))
bit_and_twice_fuel zero (suc v) a h = absurd (omega arith)
bit_and_twice_fuel (suc n) (suc v) a h = omega (
  arith,
  bit_and_low (bit_and (suc v) a) a,
  bit_and_low (suc v) a,
  ap (λ (t : ℕ). bit_and t (a / 2)) (half-bit_and (suc v) a),
  odd-bit_and (suc v) a,
  bit_and_twice_fuel n (suc v / 2) (a / 2) (omega arith),
)

pub bit_and_twice : (v a : ℕ) → bit_and (bit_and v a) a ≡ bit_and v a
bit_and_twice v a = bit_and_twice_fuel v v a (omega arith)

bit_or_twice_fuel : (n v a : ℕ) → v + a ≤ n → bit_or (bit_or v a) a ≡ bit_or v a
bit_or_twice_fuel n zero zero h = refl
bit_or_twice_fuel zero zero (suc a) h = absurd (omega arith)
bit_or_twice_fuel zero (suc v) a h = absurd (omega arith)
bit_or_twice_fuel (suc n) v a h = omega (
  arith,
  bit_or_low (bit_or v a) a,
  bit_or_low v a,
  ap (λ (t : ℕ). bit_or t (a / 2)) (half-bit_or v a),
  odd-bit_or v a,
  bit_or_twice_fuel n (v / 2) (a / 2) (omega arith),
)

pub bit_or_twice : (v a : ℕ) → bit_or (bit_or v a) a ≡ bit_or v a
bit_or_twice v a = bit_or_twice_fuel (v + a) v a (omega arith)
