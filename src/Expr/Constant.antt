-- ===== src/Expr/Constant.antt =====
-- klee/lib/Expr/Expr.cpp, klee/include/klee/Expr/Expr.h: the operations of class ConstantExpr.
use cgs.Prelude.{ℕ, ◌+◌, ◌-◌, ◌^◌, ◌==◌, Bool, true, false, ◌&&◌, Option, none, some, if◌then◌else◌}
use cgs.Expr.Node.{ArithmeticKind, CompareKind, is_division, Expr, constant, or}
use cgs.Expr.ApInt.{ApInt}

-- ConstantExpr::alloc of a bool
abbrev pub bool_value : Bool → ℕ
bool_value true = 1
bool_value false = 0

-- isZero, isOne and isAllOnes
abbrev pub is_zero : ℕ → Bool
is_zero v = v == 0

abbrev pub is_one : ℕ → Bool
is_one v = v == 1

abbrev pub is_all_ones : ℕ → ℕ → Bool
is_all_ones w v = v == 2 ^ w - 1

module _ (ops : ApInt) where
  -- Concat, Extract, ZExt, SExt: the value that is given to alloc, from widths and values.
  abbrev pub concat_value : ℕ → ℕ → ℕ → ℕ → ℕ
  concat_value wl vl wr vr =
      let w = wl + wr in
      let tmp = ops.zext_or_trunc wl w vl in
      ops.arithmetic_op or w (ops.shift_left w tmp wr) (ops.zext_or_trunc wr w vr)

  abbrev pub extract_value : ℕ → ℕ → ℕ → ℕ → ℕ
  extract_value w v offset width = ops.zext_or_trunc w width (ops.shift_right_signed w v offset)

  abbrev pub constant_concat : ℕ → ℕ → ℕ → ℕ → Expr
  constant_concat wl vl wr vr = constant (wl + wr) (concat_value wl vl wr vr)

  abbrev pub constant_extract : ℕ → ℕ → ℕ → ℕ → Expr
  constant_extract w v offset width = constant width (extract_value w v offset width)

  abbrev pub constant_zext : ℕ → ℕ → ℕ → Expr
  constant_zext w v width = constant width (ops.zext_or_trunc w width v)

  abbrev pub constant_sext : ℕ → ℕ → ℕ → Expr
  constant_sext w v width = constant width (ops.sext_or_trunc w width v)

  -- Add to AShr: one of them for each kind, where its result is there
  abbrev pub constant_result : ArithmeticKind → ℕ → ℕ → ℕ → Expr
  constant_result k w a b = constant w (ops.arithmetic_op k w a b)

  -- A division by 0 fails an assertion of APInt.
  abbrev pub constant_arithmetic : ArithmeticKind → ℕ → ℕ → ℕ → Option Expr
  constant_arithmetic k w a b =
      if is_division k && is_zero b then none else some (constant_result k w a b)

  abbrev pub constant_comparison : CompareKind → ℕ → ℕ → ℕ → Expr
  constant_comparison k w a b = constant 1 (bool_value (ops.compare_op k w a b))

  abbrev pub constant_not : ℕ → ℕ → Expr
  constant_not w v = constant w (ops.complement w v)

  abbrev pub constant_neg : ℕ → ℕ → Expr
  constant_neg w v = constant w (ops.neg w v)
