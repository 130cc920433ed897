-- ===== src/Expr/Machine.antt =====
-- An ApInt that computes, in two's complement, for the tests.
use cgs.Prelude.{
  ℕ, zero, suc, ◌+◌, ◌-◌, ◌*◌, ◌/◌, ◌%◌, ◌^◌, max, ◌==◌, ltb, leb, Bool, not, if◌then◌else◌,
}
use Prim.Native.Nat.{min}
use cgs.Expr.Node.{
  ArithmeticKind, CompareKind, add, sub, mul, udiv, sdiv, urem, srem, and, or, xor, shl, lshr, ashr,
  eq, ne, ult, ule, ugt, uge, slt, sle, sgt, sge,
}
use cgs.Expr.ApInt.{ApInt, is_negative, shift_signed, biased}

-- Bit by bit, from the lowest one
unfoldable pub bitwise : (ℕ → ℕ → ℕ) → ℕ → ℕ → ℕ → ℕ
bitwise f zero a b = 0
bitwise f (suc w) a b = f (a % 2) (b % 2) + bitwise f w (a / 2) (b / 2) * 2

abbrev pub xor_bit : ℕ → ℕ → ℕ
xor_bit a b = (a + b) % 2

abbrev pub absolute : ℕ → ℕ → ℕ
absolute w a = if is_negative w a then 2 ^ w - a else a

abbrev pub signed : ℕ → Bool → ℕ → ℕ
signed w minus a = (if minus then 2 ^ w - a % 2 ^ w else a) % 2 ^ w

abbrev pub machine_arithmetic : ArithmeticKind → ℕ → ℕ → ℕ → ℕ
machine_arithmetic add w a b = (a + b) % 2 ^ w
machine_arithmetic sub w a b = (a + (2 ^ w - b)) % 2 ^ w
machine_arithmetic mul w a b = (a * b) % 2 ^ w
machine_arithmetic udiv w a b = (a / b) % 2 ^ w
machine_arithmetic sdiv w a b =
    signed w (if is_negative w a then not (is_negative w b) else is_negative w b)
      (absolute w a / absolute w b)
machine_arithmetic urem w a b = (a % b) % 2 ^ w
machine_arithmetic srem w a b = signed w (is_negative w a) (absolute w a % absolute w b)
machine_arithmetic and w a b = bitwise min w a b
machine_arithmetic or w a b = bitwise max w a b
machine_arithmetic xor w a b = bitwise xor_bit w a b
machine_arithmetic shl w a b = (a * 2 ^ b) % 2 ^ w
machine_arithmetic lshr w a b = (a / 2 ^ b) % 2 ^ w
machine_arithmetic ashr w a b = shift_signed w a b

abbrev pub machine_compare : CompareKind → ℕ → ℕ → ℕ → Bool
machine_compare eq w a b = a == b
machine_compare ne w a b = not (a == b)
machine_compare ult w a b = ltb a b
machine_compare ule w a b = leb a b
machine_compare ugt w a b = ltb b a
machine_compare uge w a b = leb b a
machine_compare slt w a b = ltb (biased w a) (biased w b)
machine_compare sle w a b = leb (biased w a) (biased w b)
machine_compare sgt w a b = ltb (biased w b) (biased w a)
machine_compare sge w a b = leb (biased w b) (biased w a)

abbrev pub machine : ApInt
machine = record {
  arithmetic_op = machine_arithmetic;
  compare_op = machine_compare;
  division_by_zero = λ k w a. 0;
  neg = λ w a. (2 ^ w - a) % 2 ^ w;
  complement = λ w a. 2 ^ w - suc a;
  shift_left = λ w a n. (a * 2 ^ n) % 2 ^ w;
  shift_right_signed = shift_signed;
  zext_or_trunc = λ w v a. a % 2 ^ v;
  sext_or_trunc = λ w v a. (if is_negative w a then a + (2 ^ v - 2 ^ w) else a) % 2 ^ v;
}
