-- ===== src/Expr/Builder.antt =====
-- klee/include/klee/Expr/ExprBuilder.h, klee/lib/Expr/ExprBuilder.cpp: the interface of the
-- builders, the builder that only allocates, and the one that passes everything on. The methods
-- Add to AShr are one operation with the kind as argument, and so are Eq to Sge.
use cgs.Prelude.{ℕ, Option, none, some}
use cgs.Expr.Node.{
  Array, Expr, UpdateNode, ArithmeticKind, CompareKind, constant, not_optimized, read, select,
  concat, extract, zext, sext, negation, arithmetic, comparison,
}

-- class ExprBuilder. `none` is a failed assertion, or a recursion that ran out of fuel.
pub record ExprBuilder : Type 0 where
  pub build_constant : ℕ → ℕ → Option Expr
  pub build_not_optimized : Expr → Option Expr
  pub build_read : Array → UpdateNode → Expr → Option Expr
  pub build_select : Expr → Expr → Expr → Option Expr
  pub build_concat : Expr → Expr → Option Expr
  pub build_extract : Expr → ℕ → ℕ → Option Expr
  pub build_zext : Expr → ℕ → Option Expr
  pub build_sext : Expr → ℕ → Option Expr
  pub build_not : Expr → Option Expr
  pub build_arithmetic : ArithmeticKind → Expr → Expr → Option Expr
  pub build_comparison : CompareKind → Expr → Expr → Option Expr

abbrev pub default_builder : ExprBuilder
default_builder = record {
  build_constant = λ w v. some (constant w v);
  build_not_optimized = λ e. some (not_optimized e);
  build_read = λ root head index. some (read root head index);
  build_select = λ c t f. some (select c t f);
  build_concat = λ l r. some (concat l r);
  build_extract = λ e offset w. some (extract e offset w);
  build_zext = λ e w. some (zext e w);
  build_sext = λ e w. some (sext e w);
  build_not = λ e. some (negation e);
  build_arithmetic = λ k l r. some (arithmetic k l r);
  build_comparison = λ k l r. some (comparison k l r);
}

abbrev pub chained_builder : ExprBuilder → ExprBuilder
chained_builder base = record {
  build_constant = λ w v. base.build_constant w v;
  build_not_optimized = λ e. base.build_not_optimized e;
  build_read = λ root head index. base.build_read root head index;
  build_select = λ c t f. base.build_select c t f;
  build_concat = λ l r. base.build_concat l r;
  build_extract = λ e offset w. base.build_extract e offset w;
  build_zext = λ e w. base.build_zext e w;
  build_sext = λ e w. base.build_sext e w;
  build_not = λ e. base.build_not e;
  build_arithmetic = λ k l r. base.build_arithmetic k l r;
  build_comparison = λ k l r. base.build_comparison k l r;
}

-- No fuel is left.
abbrev pub no_builder : ExprBuilder
no_builder = record {
  build_constant = λ w v. none;
  build_not_optimized = λ e. none;
  build_read = λ root head index. none;
  build_select = λ c t f. none;
  build_concat = λ l r. none;
  build_extract = λ e offset w. none;
  build_zext = λ e w. none;
  build_sext = λ e w. none;
  build_not = λ e. none;
  build_arithmetic = λ k l r. none;
  build_comparison = λ k l r. none;
}
