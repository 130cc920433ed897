-- ===== src/Expr/ApInt.antt =====
-- llvm::APInt, on which klee::ConstantExpr stands: its operations are an argument, with what
-- LLVM documents of them as laws. A value is a number below 2 to the power of its width.
use cgs.Prelude.{
  ℕ, suc, ◌+◌, ◌-◌, ◌*◌, ◌/◌, ◌%◌, ◌^◌, ◌<◌, ◌≤◌, ◌==◌, ◌≡◌, ◌&&◌, false, Bool, not, ltb, leb,
  if◌then◌else◌,
}
use cgs.Expr.Node.{
  ArithmeticKind, is_division, CompareKind, add, sub, mul, and, or, xor, shl, lshr, ashr, eq, ne,
  ult, ule, ugt, uge, slt, sle, sgt, sge,
}

-- The first number is the width, the second one the value.
pub record ApInt : Type 0 where
  pub arithmetic_op : ArithmeticKind → ℕ → ℕ → ℕ → ℕ
  pub compare_op : CompareKind → ℕ → ℕ → ℕ → Bool
  -- What a solver takes a division by 0 to be, for which APInt has no value
  pub division_by_zero : ArithmeticKind → ℕ → ℕ → ℕ
  pub neg : ℕ → ℕ → ℕ
  pub complement : ℕ → ℕ → ℕ
  pub shift_left : ℕ → ℕ → ℕ → ℕ
  pub shift_right_signed : ℕ → ℕ → ℕ → ℕ
  pub zext_or_trunc : ℕ → ℕ → ℕ → ℕ
  pub sext_or_trunc : ℕ → ℕ → ℕ → ℕ

abbrev pub Fits : ℕ → ℕ → Type 0
Fits w v = v < 2 ^ w

-- Two's complement
abbrev pub is_negative : ℕ → ℕ → Bool
is_negative w a = leb (2 ^ w) (a + a)

abbrev pub shift_signed : ℕ → ℕ → ℕ → ℕ
shift_signed w a n =
    (if is_negative w a then (a + 2 ^ w * (2 ^ n - 1)) / 2 ^ n else a / 2 ^ n) % 2 ^ w

-- The order of signed values is that of the unsigned ones half the range away.
abbrev pub biased : ℕ → ℕ → ℕ
biased w a = if is_negative w a then a - 2 ^ (w - 1) else a + 2 ^ (w - 1)

pub record ApIntLaws (ops : ApInt) : Type 0 where
  pub add_lem : (w a b : ℕ) → ops.arithmetic_op add w a b ≡ (a + b) % 2 ^ w
  pub sub_lem : (w a b : ℕ) → ops.arithmetic_op sub w a b ≡ (a + (2 ^ w - b)) % 2 ^ w
  pub mul_lem : (w a b : ℕ) → ops.arithmetic_op mul w a b ≡ (a * b) % 2 ^ w
  pub neg_lem : (w a : ℕ) → ops.neg w a ≡ (2 ^ w - a) % 2 ^ w
  pub complement_lem : (w a : ℕ) → Fits w a → ops.complement w a ≡ 2 ^ w - suc a
  pub and_comm : (w a b : ℕ) → ops.arithmetic_op and w a b ≡ ops.arithmetic_op and w b a
  pub or_comm : (w a b : ℕ) → ops.arithmetic_op or w a b ≡ ops.arithmetic_op or w b a
  pub xor_comm : (w a b : ℕ) → ops.arithmetic_op xor w a b ≡ ops.arithmetic_op xor w b a
  pub and_zero : (w b : ℕ) → Fits w b → ops.arithmetic_op and w 0 b ≡ 0
  pub and_ones : (w b : ℕ) → Fits w b → ops.arithmetic_op and w (2 ^ w - 1) b ≡ b
  pub or_zero : (w b : ℕ) → Fits w b → ops.arithmetic_op or w 0 b ≡ b
  pub or_ones : (w b : ℕ) → Fits w b → ops.arithmetic_op or w (2 ^ w - 1) b ≡ 2 ^ w - 1
  pub xor_zero : (w b : ℕ) → Fits w b → ops.arithmetic_op xor w 0 b ≡ b
  pub xor_ones : (w b : ℕ) → Fits w b → ops.arithmetic_op xor w (2 ^ w - 1) b ≡ ops.complement w b
  pub de_morgan :
      (w a b : ℕ)
      → Fits w a
      → Fits w b
      → ops.complement w (ops.arithmetic_op or w a b)
        ≡ ops.arithmetic_op and w (ops.complement w a) (ops.complement w b)
  pub eq_lem : (w a b : ℕ) → ops.compare_op eq w a b ≡ (a == b)
  pub ne_lem : (w a b : ℕ) → ops.compare_op ne w a b ≡ not (a == b)
  pub shl_lem : (w a b : ℕ) → ops.arithmetic_op shl w a b ≡ (a * 2 ^ b) % 2 ^ w
  pub lshr_lem : (w a b : ℕ) → ops.arithmetic_op lshr w a b ≡ (a / 2 ^ b) % 2 ^ w
  pub ashr_lem : (w a b : ℕ) → ops.arithmetic_op ashr w a b ≡ shift_signed w a b
  pub ult_lem : (w a b : ℕ) → ops.compare_op ult w a b ≡ ltb a b
  pub ule_lem : (w a b : ℕ) → ops.compare_op ule w a b ≡ leb a b
  pub slt_lem : (w a b : ℕ) → ops.compare_op slt w a b ≡ ltb (biased w a) (biased w b)
  pub sle_lem : (w a b : ℕ) → ops.compare_op sle w a b ≡ leb (biased w a) (biased w b)
  pub zext_lem : (w v a : ℕ) → Fits w a → ops.zext_or_trunc w v a ≡ a % 2 ^ v
  pub shift_left_lem : (w a n : ℕ) → ops.shift_left w a n ≡ (a * 2 ^ n) % 2 ^ w
  pub shift_right_signed_lem : (w a n : ℕ) → ops.shift_right_signed w a n ≡ shift_signed w a n
  pub or_disjoint :
      (w a n b : ℕ)
      → Fits w (a * 2 ^ n)
      → b < 2 ^ n
      → Fits w b
      → ops.arithmetic_op or w (a * 2 ^ n) b ≡ a * 2 ^ n + b
  pub ugt_lem : (w a b : ℕ) → ops.compare_op ugt w a b ≡ ops.compare_op ult w b a
  pub uge_lem : (w a b : ℕ) → ops.compare_op uge w a b ≡ ops.compare_op ule w b a
  pub sgt_lem : (w a b : ℕ) → ops.compare_op sgt w a b ≡ ops.compare_op slt w b a
  pub sge_lem : (w a b : ℕ) → ops.compare_op sge w a b ≡ ops.compare_op sle w b a
  pub trunc_zext :
      (w v a : ℕ) → Fits w a → w ≤ v → ops.zext_or_trunc v w (ops.zext_or_trunc w v a) ≡ a
  pub trunc_sext :
      (w v a : ℕ) → Fits w a → w ≤ v → ops.zext_or_trunc v w (ops.sext_or_trunc w v a) ≡ a
  pub arithmetic_fits :
      (k : ArithmeticKind) (w a b : ℕ)
      → Fits w a
      → Fits w b
      → (is_division k && (b == 0)) ≡ false
      → Fits w (ops.arithmetic_op k w a b)
  pub division_by_zero_fits :
      (k : ArithmeticKind) (w a : ℕ) → Fits w a → Fits w (ops.division_by_zero k w a)
  pub shift_left_fits : (w a n : ℕ) → Fits w a → Fits w (ops.shift_left w a n)
  pub zext_or_trunc_fits : (w v a : ℕ) → Fits w a → Fits v (ops.zext_or_trunc w v a)
  pub sext_or_trunc_fits : (w v a : ℕ) → Fits w a → Fits v (ops.sext_or_trunc w v a)
  pub shift_right_signed_fits : (w a n : ℕ) → Fits w a → Fits w (ops.shift_right_signed w a n)
