-- ===== src/Expr/Slices.antt =====
-- What llvm::APInt's parts of a value are, as numbers: some of its bits, and two values side by
-- side.
use cgs.Prelude.{ℕ, zero, suc, ◌+◌, ◌-◌, ◌*◌, ◌/◌, ◌%◌, ◌^◌, ◌≤◌, ◌<◌, ◌≡◌, ◌∙◌, sym, ap, arith}
use native.Mathlib.Nat.{
  mul_comm, mul_assoc, mul-le-mul_right, div-one, div-add-mod', div-lt_iff_lt-mul, mod-lt,
  one-le-pow, mod-eq_of_lt, mul-add-div_right, div-eq_of_lt, div-div-eq-div-mul,
  mul-add-mod_self_right,
}

-- The bits from an offset on
abbrev pub slice : ℕ → ℕ → ℕ → ℕ
slice v offset w = (v / 2 ^ offset) % 2 ^ w

pub two-pow : (w : ℕ) → 2 ^ suc w ≡ 2 ^ w + 2 ^ w
two-pow w = omega arith

pub pow-sum : (d w : ℕ) → 2 ^ (d + w) ≡ 2 ^ d * 2 ^ w
pow-sum zero w = grind arith
pow-sum (suc d) w =
    let e : suc d + w ≡ suc (d + w) = omega arith in
    ap (λ (n : ℕ). 2 ^ n) e ∙ grind (arith, two-pow (d + w), two-pow d, pow-sum d w)

pub pow-parts : (w v : ℕ) → w ≤ v → 2 ^ v ≡ 2 ^ (v - w) * 2 ^ w
pow-parts w v h = ap (λ (n : ℕ). 2 ^ n) (omega (arith, h)) ∙ pow-sum (v - w) w

pub pow-positive : (w : ℕ) → 0 < 2 ^ w
pow-positive w = one-le-pow w 2 (omega arith)

below_product : (u a b : ℕ) → u < a * b → 0 < b → u / b < a
below_product u a b h k = (div-lt_iff_lt-mul k).1 h

joined_parts : (u a q r b s t : ℕ) → q * a + r ≡ u → s * b + t ≡ q → u ≡ s * (b * a) + (t * a + r)
joined_parts u a q r b s t e f =
    let g : (s * b + t) * a + r ≡ s * (b * a) + (t * a + r) = grind arith in
    sym e ∙ ap (λ (n : ℕ). n * a + r) (sym f) ∙ g

joined_bound : (a b t r : ℕ) → t < b → r < a → t * a + r < b * a
joined_bound a b t r h k =
    let e : (suc t) * a ≤ b * a = mul-le-mul_right a h in
    let f : (suc t) * a ≡ t * a + a = grind arith in omega (arith, e, f, k)

pub mod_product : (u a b : ℕ) → 0 < a → 0 < b → u % (b * a) ≡ ((u / a) % b) * a + u % a
mod_product u a b ha hb =
    let q = u / a in
    let low = (q % b) * a + u % a in
    ap (λ (n : ℕ). n % (b * a))
      (joined_parts u a q (u % a) b (q / b) (q % b) (div-add-mod' u a) (div-add-mod' q b))
    ∙ mul-add-mod_self_right (q / b) (b * a) low
    ∙ mod-eq_of_lt (joined_bound a b (q % b) (u % a) (mod-lt q hb) (mod-lt u ha))

pub slice_all : (v w : ℕ) → v < 2 ^ w → slice v 0 w ≡ v
slice_all v w h = ap (λ (n : ℕ). n % 2 ^ w) (div-one v) ∙ mod-eq_of_lt h

-- Two slices side by side are one slice.
pub slice_merge : (v o w w' : ℕ) → slice v (o + w') w * 2 ^ w' + slice v o w' ≡ slice v o (w + w')
slice_merge v o w w' =
    let e : v / 2 ^ (o + w') ≡ v / 2 ^ o / 2 ^ w' =
      ap (λ (n : ℕ). v / n) (pow-sum o w') ∙ sym (div-div-eq-div-mul v (2 ^ o) (2 ^ w')) in
    rw (e, pow-sum w w')
      (sym (mod_product (v / 2 ^ o) (2 ^ w') (2 ^ w) (pow-positive w') (pow-positive w)))

module _ (l r wr : ℕ) (fits : r < 2 ^ wr) where
  abbrev pair : ℕ
  pair = l * 2 ^ wr + r

  pair_left : pair / 2 ^ wr ≡ l
  pair_left =
      mul-add-div_right (pow-positive wr) l r
      ∙ ap (λ (n : ℕ). l + n) (div-eq_of_lt fits)
      ∙ omega arith

  pair_shifted : (off : ℕ) → off ≤ wr → pair / 2 ^ off ≡ l * 2 ^ (wr - off) + r / 2 ^ off
  pair_shifted off h =
      let e : l * 2 ^ wr ≡ l * 2 ^ (wr - off) * 2 ^ off =
        ap (λ (n : ℕ). l * n) (pow-parts off wr h) ∙ sym (mul_assoc l (2 ^ (wr - off)) (2 ^ off)) in
      ap (λ (n : ℕ). (n + r) / 2 ^ off) e
      ∙ mul-add-div_right (pow-positive off) (l * 2 ^ (wr - off)) r

  -- A slice on the left, on the right, and across
  pub slice_left : (off w : ℕ) → wr ≤ off → slice pair off w ≡ slice l (off - wr) w
  slice_left off w h =
      let e : pair / 2 ^ off ≡ l / 2 ^ (off - wr) =
        ap (λ (n : ℕ). pair / n) (pow-parts wr off h ∙ mul_comm (2 ^ (off - wr)) (2 ^ wr))
        ∙ sym (div-div-eq-div-mul pair (2 ^ wr) (2 ^ (off - wr)))
        ∙ ap (λ (n : ℕ). n / 2 ^ (off - wr)) pair_left in
      ap (λ (n : ℕ). n % 2 ^ w) e

  pub slice_right : (off w : ℕ) → off + w ≤ wr → slice pair off w ≡ slice r off w
  slice_right off w h =
      let b : off ≤ wr = omega (arith, h) in
      let c : w ≤ wr - off = omega (arith, h) in
      let k = l * 2 ^ (wr - off - w) in
      let e : l * 2 ^ (wr - off) ≡ k * 2 ^ w =
        ap (λ (n : ℕ). l * n) (pow-parts w (wr - off) c)
        ∙ sym (mul_assoc l (2 ^ (wr - off - w)) (2 ^ w)) in
      ap (λ (n : ℕ). n % 2 ^ w) (pair_shifted off b ∙ ap (λ (n : ℕ). n + r / 2 ^ off) e)
      ∙ mul-add-mod_self_right k (2 ^ w) (r / 2 ^ off)

  pub slice_across :
      (off w : ℕ)
      → off < wr
      → wr < off + w
      → slice pair off w ≡ slice l 0 ((w + off) - wr) * 2 ^ (wr - off) + slice r off (wr - off)
  slice_across off w h k =
      let b : off ≤ wr = omega (arith, h) in
      let d = wr - off in
      let m = (w + off) - wr in
      let low = r / 2 ^ off in
      let u = l * 2 ^ d + low in
      let low_fits : low < 2 ^ d =
        below_product r (2 ^ d) (2 ^ off) (omega (arith, fits, pow-parts off wr b))
          (pow-positive off) in
      let sum : w ≡ m + d = omega (arith, h, k) in
      let powers : 2 ^ w ≡ 2 ^ m * 2 ^ d = ap (λ (n : ℕ). 2 ^ n) sum ∙ pow-sum m d in
      let high : u / 2 ^ d ≡ l =
        mul-add-div_right (pow-positive d) l low
        ∙ ap (λ (n : ℕ). l + n) (div-eq_of_lt low_fits)
        ∙ omega arith in
      let rest : u % 2 ^ d ≡ low % 2 ^ d = mul-add-mod_self_right l (2 ^ d) low in
      let whole = mod_product u (2 ^ d) (2 ^ m) (pow-positive d) (pow-positive m) in
      cc (pair_shifted off b, powers, whole, high, rest, div-one l)
