-- ===== src/Expr/Specialized.antt =====
-- klee/lib/Expr/ExprBuilder.cpp: class ConstantSpecializedExprBuilder, which computes with constants,
-- and leaves the rest to a helper.
use cgs.Prelude.{ℕ, Option, some, ◌>>=◌, if◌then◌else◌}
use cgs.Expr.Node.{
  NotOperand, a_negation, no_negation, not_operand, Constness, a_constant, no_constant, constness,
  Array, Expr, UpdateNode, ArithmeticKind, CompareKind, constant, no_update, update, eq, is_false,
  is_true_constant,
}
use cgs.Expr.ApInt.{ApInt}
use cgs.Expr.Constant.{
  constant_concat, constant_extract, constant_zext, constant_sext, constant_arithmetic,
  constant_comparison, constant_not,
}
use cgs.Expr.Builder.{ExprBuilder}

module _ (ops : ApInt) (builder : ExprBuilder) where
  -- Add to AShr
  abbrev pub arithmetic_by : ArithmeticKind → {l r : Expr} → Constness l → Constness r → Option Expr
  arithmetic_by k (a_constant w a) (a_constant v b) = constant_arithmetic ops k w a b
  arithmetic_by k (a_constant w a) (no_constant r h) = builder.build_arithmetic k (constant w a) r
  arithmetic_by k (no_constant l h) (a_constant v b) = builder.build_arithmetic k l (constant v b)
  arithmetic_by k (no_constant l h) (no_constant r h') = builder.build_arithmetic k l r

  abbrev pub specialized_arithmetic : ArithmeticKind → Expr → Expr → Option Expr
  specialized_arithmetic k l r = arithmetic_by k (constness l) (constness r)

  -- Eq to Sge
  abbrev pub comparison_by : CompareKind → {l r : Expr} → Constness l → Constness r → Option Expr
  comparison_by k (a_constant w a) (a_constant v b) = some (constant_comparison ops k w a b)
  comparison_by k (a_constant w a) (no_constant r h) = builder.build_comparison k (constant w a) r
  comparison_by k (no_constant l h) (a_constant v b) = builder.build_comparison k l (constant v b)
  comparison_by k (no_constant l h) (no_constant r h') = builder.build_comparison k l r

  abbrev pub specialized_comparison : CompareKind → Expr → Expr → Option Expr
  specialized_comparison k l r = comparison_by k (constness l) (constness r)

  -- The loop of Read
  abbrev pub roll_back : Expr → UpdateNode → Option UpdateNode
  roll_back index no_update = some no_update
  roll_back index (update i v next) =
      let rest = roll_back index next in
      specialized_comparison eq index i >>= is_false >>= λ skip.
      if skip then rest else some (update i v next)

  abbrev pub specialized_read : Array → UpdateNode → Expr → Option Expr
  specialized_read root head index =
      roll_back index head >>= λ head. builder.build_read root head index

  abbrev pub select_by : {c : Expr} → Constness c → Expr → Expr → Option Expr
  select_by (a_constant w v) t f = some (if is_true_constant w v then t else f)
  select_by (no_constant c h) t f = builder.build_select c t f

  abbrev pub specialized_select : Expr → Expr → Expr → Option Expr
  specialized_select c t f = select_by (constness c) t f

  abbrev pub concat_by : {l r : Expr} → Constness l → Constness r → Option Expr
  concat_by (a_constant wl vl) (a_constant wr vr) = some (constant_concat ops wl vl wr vr)
  concat_by (a_constant wl vl) (no_constant r h) = builder.build_concat (constant wl vl) r
  concat_by (no_constant l h) (a_constant wr vr) = builder.build_concat l (constant wr vr)
  concat_by (no_constant l h) (no_constant r h') = builder.build_concat l r

  abbrev pub specialized_concat : Expr → Expr → Option Expr
  specialized_concat l r = concat_by (constness l) (constness r)

  abbrev pub extract_by : {e : Expr} → Constness e → ℕ → ℕ → Option Expr
  extract_by (a_constant v a) offset w = some (constant_extract ops v a offset w)
  extract_by (no_constant e h) offset w = builder.build_extract e offset w

  abbrev pub specialized_extract : Expr → ℕ → ℕ → Option Expr
  specialized_extract e offset w = extract_by (constness e) offset w

  abbrev pub zext_by : {e : Expr} → Constness e → ℕ → Option Expr
  zext_by (a_constant v a) w = some (constant_zext ops v a w)
  zext_by (no_constant e h) w = builder.build_zext e w

  abbrev pub specialized_zext : Expr → ℕ → Option Expr
  specialized_zext e w = zext_by (constness e) w

  abbrev pub sext_by : {e : Expr} → Constness e → ℕ → Option Expr
  sext_by (a_constant v a) w = some (constant_sext ops v a w)
  sext_by (no_constant e h) w = builder.build_sext e w

  abbrev pub specialized_sext : Expr → ℕ → Option Expr
  specialized_sext e w = sext_by (constness e) w

  abbrev pub not_by : {e : Expr} → NotOperand e → Option Expr
  not_by (a_negation e) = some e
  not_by (no_negation (a_constant w v)) = some (constant_not ops w v)
  not_by (no_negation (no_constant e h)) = builder.build_not e

  abbrev pub specialized_not : Expr → Option Expr
  specialized_not e = not_by (not_operand e)

  abbrev pub specialized_builder : ExprBuilder
  specialized_builder = record {
    build_constant = λ w v. builder.build_constant w v;
    build_not_optimized = λ e. builder.build_not_optimized e;
    build_read = λ root head index. specialized_read root head index;
    build_select = λ c t f. specialized_select c t f;
    build_concat = λ l r. specialized_concat l r;
    build_extract = λ e offset w. specialized_extract e offset w;
    build_zext = λ e w. specialized_zext e w;
    build_sext = λ e w. specialized_sext e w;
    build_not = λ e. specialized_not e;
    build_arithmetic = λ k l r. specialized_arithmetic k l r;
    build_comparison = λ k l r. specialized_comparison k l r;
  }
