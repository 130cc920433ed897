-- ===== src/Expr/PartValues.antt =====
-- klee/lib/Expr/Expr.cpp: what ConstantExpr::Concat and ConstantExpr::Extract compute, as numbers.
use cgs.Prelude.{
  ℕ, ◌+◌, ◌-◌, ◌*◌, ◌/◌, ◌%◌, ◌^◌, ◌≤◌, ◌<◌, ◌≡◌, ◌∙◌, refl, sym, ap, arith, Bool, true, false,
  if◌then◌else◌,
}
use native.Mathlib.Nat.{
  mul_comm, mul_assoc, mod-lt, mod-eq_of_lt, add-mul-div_right, mul-add-mod_self_right,
  add-mul-mod_self_right, pow-le-pow_right, mul-lt-mul_of_pos_right,
}
use cgs.Expr.ApInt.{ApInt, ApIntLaws, Fits, is_negative, shift_signed}
use cgs.Expr.Constant.{concat_value, extract_value}
use cgs.Expr.Slices.{slice, pow-sum, pow-parts, pow-positive, mod_product}

-- The lower bits of the lower bits
mod_mod_wider : (x w v : ℕ) → w ≤ v → x % 2 ^ v % 2 ^ w ≡ x % 2 ^ w
mod_mod_wider x w v h =
    let high = (x / 2 ^ w) % 2 ^ (v - w) in
    ap (λ (n : ℕ). n % 2 ^ w)
      (ap (λ (n : ℕ). x % n) (pow-parts w v h)
        ∙ mod_product x (2 ^ w) (2 ^ (v - w)) (pow-positive w) (pow-positive (v - w)))
    ∙ mul-add-mod_self_right high (2 ^ w) (x % 2 ^ w)
    ∙ mod-eq_of_lt (mod-lt x (pow-positive w))

-- The sign moves in above the bits that are taken.
sign-slice :
    (w v off n : ℕ) → off + n ≤ w → ((v + 2 ^ w * (2 ^ off - 1)) / 2 ^ off) % 2 ^ n ≡ slice v off n
sign-slice w v off n h =
    let top = 2 ^ off - 1 in
    let k = top * 2 ^ (w - off) in
    let j = top * 2 ^ (w - off - n) in
    let e : 2 ^ w * top ≡ k * 2 ^ off =
      mul_comm (2 ^ w) top
      ∙ ap (λ (x : ℕ). top * x) (pow-parts off w (omega (arith, h)))
      ∙ sym (mul_assoc top (2 ^ (w - off)) (2 ^ off)) in
    let f : k ≡ j * 2 ^ n =
      ap (λ (x : ℕ). top * x) (pow-parts n (w - off) (omega (arith, h)))
      ∙ sym (mul_assoc top (2 ^ (w - off - n)) (2 ^ n)) in
    let g : (v + 2 ^ w * top) / 2 ^ off ≡ v / 2 ^ off + j * 2 ^ n =
      ap (λ (x : ℕ). (v + x) / 2 ^ off) e
      ∙ add-mul-div_right v k (pow-positive off)
      ∙ ap (λ (x : ℕ). v / 2 ^ off + x) f in
    ap (λ (x : ℕ). x % 2 ^ n) g ∙ add-mul-mod_self_right (v / 2 ^ off) j (2 ^ n)

shifted-slice : (w v off n : ℕ) → off + n ≤ w → shift_signed w v off % 2 ^ n ≡ slice v off n
shifted-slice w v off n h = mod_mod_wider _ n w (omega (arith, h)) ∙ by_sign (is_negative w v)
  where
    by_sign :
        (b : Bool)
        → (if b then (v + 2 ^ w * (2 ^ off - 1)) / 2 ^ off else v / 2 ^ off) % 2 ^ n ≡ slice v off n
    by_sign true = sign-slice w v off n h
    by_sign false = refl

module _ (ops : ApInt) (laws : ApIntLaws ops) where
  pub extract_value_lem :
      (w v off n : ℕ) → Fits w v → off + n ≤ w → extract_value ops w v off n ≡ slice v off n
  extract_value_lem w v off n f h =
      laws.zext_lem w n (ops.shift_right_signed w v off) (laws.shift_right_signed_fits w v off f)
      ∙ ap (λ (x : ℕ). x % 2 ^ n) (laws.shift_right_signed_lem w v off)
      ∙ shifted-slice w v off n h

  pub concat_value_lem :
      (wl l wr r : ℕ)
      → Fits wl l
      → Fits wr r
      → (concat_value ops wl l wr r ≡ l * 2 ^ wr + r) × Fits (wl + wr) (l * 2 ^ wr)
  concat_value_lem wl l wr r f g =
      let w = wl + wr in
      let p : 2 ^ wl ≤ 2 ^ w = pow-le-pow_right (omega arith) (omega arith) in
      let q : 2 ^ wr ≤ 2 ^ w = pow-le-pow_right (omega arith) (omega arith) in
      let shifted : l * 2 ^ wr < 2 ^ w =
        omega (arith, mul-lt-mul_of_pos_right f (pow-positive wr), pow-sum wl wr) in
      let zl : ops.zext_or_trunc wl w l ≡ l =
        laws.zext_lem wl w l f ∙ mod-eq_of_lt (omega (arith, f, p)) in
      let zr : ops.zext_or_trunc wr w r ≡ r =
        laws.zext_lem wr w r g ∙ mod-eq_of_lt (omega (arith, g, q)) in
      let sl : ops.shift_left w l wr ≡ l * 2 ^ wr =
        laws.shift_left_lem w l wr ∙ mod-eq_of_lt shifted in
      (cc (zl, zr, sl, laws.or_disjoint w l wr r shifted g (omega (arith, g, q))), shifted)
