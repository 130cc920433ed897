-- ===== src/Expr/MachineLaws.antt =====
-- That the ApInt of the tests has the laws.
use cgs.Prelude.{
  ℕ, zero, suc, ◌+◌, ◌-◌, ◌*◌, ◌/◌, ◌%◌, ◌^◌, max, ◌≤◌, ◌<◌, ◌≡◌, ◌∙◌, refl, ap, arith, add_comm,
  inl, inr, Bool-cases, if◌then◌else◌,
}
use Prim.Native.Nat.{min}
use native.Mathlib.Nat.{mod-lt, one-le-pow, mod-eq_of_lt, add-mul-mod_self_right, pow-le-pow_right}
use cgs.Expr.Node.{
  ArithmeticKind, add, sub, mul, udiv, sdiv, urem, srem, and, or, xor, shl, lshr, ashr,
}
use cgs.Expr.ApInt.{is_negative, ApIntLaws, Fits}
use cgs.Expr.Slices.{two-pow, pow-parts}
use cgs.Expr.Machine.{bitwise, xor_bit, machine, machine_arithmetic}

mod-Fits : (w x : ℕ) → Fits w (x % 2 ^ w)
mod-Fits w x = mod-lt x (one-le-pow w 2 (omega arith))

half-Fits : (w a : ℕ) → Fits (suc w) a → Fits w (a / 2)
half-Fits w a h = omega (arith, h, two-pow w)

bitwise-Fits :
    (f : ℕ → ℕ → ℕ) → ((a b : ℕ) → f (a % 2) (b % 2) ≤ 1) → (w a b : ℕ) → Fits w (bitwise f w a b)
unfolding bitwise
bitwise-Fits f h zero a b = omega arith
bitwise-Fits f h (suc w) a b = omega (arith, h a b, bitwise-Fits f h w (a / 2) (b / 2), two-pow w)

bitwise_comm :
    (f : ℕ → ℕ → ℕ) → ((a b : ℕ) → f a b ≡ f b a) → (w a b : ℕ) → bitwise f w a b ≡ bitwise f w b a
unfolding bitwise
bitwise_comm f h zero a b = refl
bitwise_comm f h (suc w) a b = omega (arith, h (a % 2) (b % 2), bitwise_comm f h w (a / 2) (b / 2))

-- Where a bit with 0, or with 1, is the other bit or stays as it is
bitwise_same :
    (f : ℕ → ℕ → ℕ) → ((b : ℕ) → f 0 (b % 2) ≡ b % 2) → (w b : ℕ) → Fits w b → bitwise f w 0 b ≡ b
unfolding bitwise
bitwise_same f h zero b k = omega (arith, k)
bitwise_same f h (suc w) b k = omega (arith, h b, bitwise_same f h w (b / 2) (half-Fits w b k))

min_zero : (w b : ℕ) → bitwise min w 0 b ≡ 0
unfolding bitwise
min_zero zero b = refl
min_zero (suc w) b = omega (arith, min_zero w (b / 2))

ones-low : (w : ℕ) → (2 ^ suc w - 1) % 2 ≡ 1
ones-low w = omega (arith, two-pow w, one-le-pow w 2 (omega arith))

ones-half : (w : ℕ) → (2 ^ suc w - 1) / 2 ≡ 2 ^ w - 1
ones-half w = omega (arith, two-pow w, one-le-pow w 2 (omega arith))

min_ones : (w b : ℕ) → Fits w b → bitwise min w (2 ^ w - 1) b ≡ b
unfolding bitwise
min_ones zero b k = omega (arith, k)
min_ones (suc w) b k =
    rw (ones-low w, ones-half w) (omega (arith, min_ones w (b / 2) (half-Fits w b k)))

max_ones : (w b : ℕ) → Fits w b → bitwise max w (2 ^ w - 1) b ≡ 2 ^ w - 1
unfolding bitwise
max_ones zero b k = refl
max_ones (suc w) b k =
    rw (ones-low w, ones-half w)
      (omega (arith, max_ones w (b / 2) (half-Fits w b k), two-pow w, one-le-pow w 2 (omega arith)))

xor_ones_value : (w b : ℕ) → Fits w b → bitwise xor_bit w (2 ^ w - 1) b ≡ 2 ^ w - suc b
unfolding bitwise
xor_ones_value zero b k = omega (arith, k)
xor_ones_value (suc w) b k =
    rw (ones-low w, ones-half w)
      (omega (arith, xor_ones_value w (b / 2) (half-Fits w b k), k, two-pow w))

twice : (a p q : ℕ) → q ≡ p + p → a * q ≡ a * p + a * p
twice a p q e = let f : a * (p + p) ≡ a * p + a * p = grind arith in ap (λ (n : ℕ). a * n) e ∙ f

-- Where the lower bits of the one and the upper bits of the other are 0
max_disjoint :
    (w a n b : ℕ)
    → Fits w (a * 2 ^ n)
    → b < 2 ^ n
    → Fits w b
    → bitwise max w (a * 2 ^ n) b ≡ a * 2 ^ n + b
unfolding bitwise
max_disjoint w a zero b h k f =
    let e : b ≡ 0 = omega (arith, k) in
    let g : a * 2 ^ 0 ≡ a = omega arith in
    rw (e, g)
      (bitwise_comm max (λ x y. omega arith) w a 0
        ∙ bitwise_same max (λ x. omega arith) w a (omega (arith, h, g))
        ∙ omega arith)
max_disjoint zero a (suc n) b h k f = omega (arith, h, f)
max_disjoint (suc w) a (suc n) b h k f =
    let p = a * 2 ^ n in
    let e : a * 2 ^ suc n ≡ p + p = twice a (2 ^ n) (2 ^ suc n) (two-pow n) in
    let low : (p + p) % 2 ≡ 0 = omega arith in
    let half : (p + p) / 2 ≡ p = omega arith in
    let rest : bitwise max w p (b / 2) ≡ p + b / 2 =
      max_disjoint w a n (b / 2) (omega (arith, h, e, two-pow w)) (half-Fits n b k)
        (half-Fits w b f) in
    rw (e, low, half) (omega (arith, rest))

complement-low : (w a : ℕ) → Fits (suc w) a → (2 ^ suc w - suc a) % 2 ≡ 1 - a % 2
complement-low w a h = omega (arith, h, two-pow w)

complement-half : (w a : ℕ) → Fits (suc w) a → (2 ^ suc w - suc a) / 2 ≡ 2 ^ w - suc (a / 2)
complement-half w a h = omega (arith, h, two-pow w)

bitwise_de_morgan :
    (w a b : ℕ)
    → Fits w a
    → Fits w b
    → 2 ^ w - suc (bitwise max w a b) ≡ bitwise min w (2 ^ w - suc a) (2 ^ w - suc b)
unfolding bitwise
bitwise_de_morgan zero a b h k = refl
bitwise_de_morgan (suc w) a b h k =
    rw (complement-low w a h, complement-half w a h, complement-low w b k, complement-half w b k)
      (omega (
        arith,
        bitwise_de_morgan w (a / 2) (b / 2) (half-Fits w a h) (half-Fits w b k),
        bitwise-Fits max (λ x y. omega arith) w (a / 2) (b / 2),
        two-pow w,
      ))

machine_arithmetic-Fits :
    (k : ArithmeticKind) (w a b : ℕ) → Fits w a → Fits w b → Fits w (machine_arithmetic k w a b)
machine_arithmetic-Fits add w a b h k = mod-Fits w (a + b)
machine_arithmetic-Fits sub w a b h k = mod-Fits w (a + (2 ^ w - b))
machine_arithmetic-Fits mul w a b h k = mod-Fits w (a * b)
machine_arithmetic-Fits udiv w a b h k = mod-Fits w (a / b)
machine_arithmetic-Fits sdiv w a b h k = mod-Fits w _
machine_arithmetic-Fits urem w a b h k = mod-Fits w (a % b)
machine_arithmetic-Fits srem w a b h k = mod-Fits w _
machine_arithmetic-Fits shl w a b h k = mod-Fits w (a * 2 ^ b)
machine_arithmetic-Fits lshr w a b h k = mod-Fits w (a / 2 ^ b)
machine_arithmetic-Fits ashr w a b h k = mod-Fits w _
machine_arithmetic-Fits and w a b h k = bitwise-Fits min (λ x y. omega arith) w a b
machine_arithmetic-Fits or w a b h k = bitwise-Fits max (λ x y. omega arith) w a b
machine_arithmetic-Fits xor w a b h k = bitwise-Fits xor_bit (λ x y. omega arith) w a b

wider-lt : (w v a : ℕ) → Fits w a → w ≤ v → a < 2 ^ v
wider-lt w v a f h = let p : 2 ^ w ≤ 2 ^ v = pow-le-pow_right (omega arith) h in omega (arith, f, p)

less_once : (m k q : ℕ) → q ≡ k * m → 1 ≤ k → q - m ≡ (k - 1) * m
less_once m zero q e h = absurd (omega arith)
less_once m (suc k) q e h = grind arith

trunc_zext_value : (w v a : ℕ) → Fits w a → w ≤ v → a % 2 ^ v % 2 ^ w ≡ a
trunc_zext_value w v a f h =
    ap (λ (x : ℕ). x % 2 ^ w) (mod-eq_of_lt (wider-lt w v a f h)) ∙ mod-eq_of_lt f

trunc_sext_value :
    (w v a : ℕ)
    → Fits w a
    → w ≤ v
    → (if is_negative w a then a + (2 ^ v - 2 ^ w) else a) % 2 ^ v % 2 ^ w ≡ a
trunc_sext_value w v a f h = elim (Bool-cases (is_negative w a)) [
  | inr p ↦ rw p (trunc_zext_value w v a f h)
  | inl p ↦ rw p (
      let r : 2 ^ v - 2 ^ w ≡ (2 ^ (v - w) - 1) * 2 ^ w =
        less_once (2 ^ w) (2 ^ (v - w)) (2 ^ v) (pow-parts w v h)
          (one-le-pow (v - w) 2 (omega arith)) in
      let b : a + (2 ^ v - 2 ^ w) < 2 ^ v =
        let q : 2 ^ w ≤ 2 ^ v = pow-le-pow_right (omega arith) h in omega (arith, f, q) in
      ap (λ (x : ℕ). x % 2 ^ w) (mod-eq_of_lt b ∙ ap (λ (x : ℕ). a + x) r)
      ∙ add-mul-mod_self_right a (2 ^ (v - w) - 1) (2 ^ w)
      ∙ mod-eq_of_lt f)
]

pub machine-ApIntLaws : ApIntLaws machine
machine-ApIntLaws = record {
  add_lem = λ w a b. refl;
  sub_lem = λ w a b. refl;
  mul_lem = λ w a b. refl;
  neg_lem = λ w a. refl;
  complement_lem = λ w a h. refl;
  and_comm = bitwise_comm min (λ x y. omega arith);
  or_comm = bitwise_comm max (λ x y. omega arith);
  xor_comm = bitwise_comm xor_bit (λ x y. ap (λ (n : ℕ). n % 2) (add_comm x y));
  and_zero = λ w b h. min_zero w b;
  and_ones = min_ones;
  or_zero = bitwise_same max (λ x. omega arith);
  or_ones = max_ones;
  xor_zero = bitwise_same xor_bit (λ x. omega arith);
  xor_ones = xor_ones_value;
  de_morgan = bitwise_de_morgan;
  eq_lem = λ w a b. refl;
  ne_lem = λ w a b. refl;
  shl_lem = λ w a b. refl;
  lshr_lem = λ w a b. refl;
  ashr_lem = λ w a b. refl;
  ult_lem = λ w a b. refl;
  ule_lem = λ w a b. refl;
  slt_lem = λ w a b. refl;
  sle_lem = λ w a b. refl;
  zext_lem = λ w v a h. refl;
  shift_left_lem = λ w a n. refl;
  shift_right_signed_lem = λ w a n. refl;
  or_disjoint = max_disjoint;
  ugt_lem = λ w a b. refl;
  uge_lem = λ w a b. refl;
  sgt_lem = λ w a b. refl;
  sge_lem = λ w a b. refl;
  trunc_zext = trunc_zext_value;
  trunc_sext = trunc_sext_value;
  arithmetic_fits = λ k w a b f g safe. machine_arithmetic-Fits k w a b f g;
  division_by_zero_fits = λ k w a f. one-le-pow w 2 (omega arith);
  shift_left_fits = λ w a n h. mod-Fits w (a * 2 ^ n);
  zext_or_trunc_fits = λ w v a h. mod-Fits v a;
  sext_or_trunc_fits = λ w v a h. mod-Fits v _;
  shift_right_signed_fits = λ w a n h. mod-Fits w _;
}
