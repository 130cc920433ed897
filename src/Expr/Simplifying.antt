-- ===== src/Expr/Simplifying.antt =====
-- klee/lib/Expr/ExprBuilder.cpp: class SimplifyingBuilder, over builder, the builder that it is in, and
-- base.
use cgs.Prelude.{ℕ, zero, suc, ◌+◌, ◌≡◌, Option, some, ◌>>=◌}
use cgs.Expr.Node.{
  constness, OrOperand, an_or, no_or, or_operand, Expr, CompareKind, constant, and, eq, ne, ult,
  ule, ugt, uge, slt, sle, sgt, sge, size, Expr-discrete,
}
use cgs.Expr.ApInt.{ApInt}
use cgs.Expr.Builder.{ExprBuilder, chained_builder, no_builder}
use cgs.Expr.Specialized.{specialized_builder}
use cgs.Expr.Folding.{eq_constant, commuting_by}

-- ExprBuilder::True
abbrev pub true_expr : Expr
true_expr = constant 1 1

module _ (ops : ApInt) (builder base : ExprBuilder) where
  -- Eq without a constant
  abbrev pub simplify_eq_by : {l r : Expr} → Dec (l ≡ r) → Option Expr
  simplify_eq_by (yes p) = some true_expr
  simplify_eq_by {l = l} {r = r} (no p) = base.build_comparison eq l r

  abbrev pub simplify_eq : Expr → Expr → Option Expr
  simplify_eq l r = simplify_eq_by (Expr-discrete l r)

  abbrev pub simplify_not : {e : Expr} → OrOperand e → Option Expr
  simplify_not (an_or a b) =
      builder.build_not a >>= λ x. builder.build_not b >>= λ y. builder.build_arithmetic and x y
  simplify_not (no_or e) = base.build_not e

  abbrev pub simplify_comparison : CompareKind → Expr → Expr → Option Expr
  simplify_comparison eq l r =
      commuting_by ops builder base (eq_constant ops builder base) simplify_eq (constness l)
        (constness r)
  simplify_comparison ne l r = builder.build_comparison eq l r >>= λ e. builder.build_not e
  simplify_comparison ugt l r = builder.build_comparison ult r l
  simplify_comparison uge l r = builder.build_comparison ule r l
  simplify_comparison sgt l r = builder.build_comparison slt r l
  simplify_comparison sge l r = builder.build_comparison sle r l
  simplify_comparison k l r = base.build_comparison k l r

  abbrev pub simplifying_helper : ExprBuilder
  simplifying_helper = record (chained_builder base) {
    build_not = λ e. simplify_not (or_operand e);
    build_comparison = simplify_comparison;
  }

-- The builder with fuel for the calls from one of its methods to another one
module _ (ops : ApInt) (base : ExprBuilder) where
  abbrev pub simplifying_at : ℕ → ExprBuilder
  simplifying_at zero = no_builder
  simplifying_at (suc n) = specialized_builder ops (simplifying_helper ops (simplifying_at n) base)

  -- SimplifyingExprBuilder: Not goes into disjunctions, and Ne calls Not for what Eq gives.
  abbrev pub simplifying_builder : ExprBuilder
  simplifying_builder = record (simplifying_at 1) {
    build_not = λ e. (simplifying_at (suc (size e))).build_not e;
    build_comparison =
        λ k l r. (simplifying_at (suc (suc (suc (size l + size r))))).build_comparison k l r;
  }
