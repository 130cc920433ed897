-- ===== src/Expr/Create/Kinds.antt =====
-- klee/lib/Expr/Expr.cpp: Expr::createFromKind.
use cgs.Prelude.{ℕ, List, [], ◌∷◌, Option, none, some}
use cgs.Expr.Node.{
  Expr, not_optimized, ArithmeticKind, CompareKind, add, sub, mul, udiv, sdiv, urem, srem, and, or,
  xor, shl, lshr, ashr, eq, ne, ult, ule, ugt, uge, slt, sle, sgt, sge,
}
use cgs.Expr.ApInt.{ApInt}
use cgs.Expr.Create.Bitwise.{and_create, or_create}
use cgs.Expr.Create.Eq.{eq_create, ne_create}
use cgs.Expr.Create.Sum.{add_create, sub_create, mul_create, xor_create}
use cgs.Expr.Create.Select.{select_create}
use cgs.Expr.Create.Parts.{concat_create, zext_create, sext_create}
use cgs.Expr.Create.Order.{
  udiv_create, sdiv_create, urem_create, srem_create, shl_create, lshr_create, ashr_create,
  ult_create, ule_create, slt_create, sle_create, ugt_create, uge_create, sgt_create, sge_create,
}

-- Expr::Kind, without the kinds for which createFromKind fails
pub data Kind : Type 0 where
  not_optimized_kind : Kind
  select_kind : Kind
  concat_kind : Kind
  zext_kind : Kind
  sext_kind : Kind
  arithmetic_kind : ArithmeticKind → Kind
  comparison_kind : CompareKind → Kind
  invalid_kind : Kind

pub data CreateArg : Type 0 where
  an_expr : Expr → CreateArg
  a_width : ℕ → CreateArg

module _ (ops : ApInt) where
  abbrev pub arithmetic_from_kind : ArithmeticKind → Expr → Expr → Option Expr
  arithmetic_from_kind add = add_create ops
  arithmetic_from_kind sub = sub_create ops
  arithmetic_from_kind mul = mul_create ops
  arithmetic_from_kind udiv = udiv_create ops
  arithmetic_from_kind sdiv = sdiv_create ops
  arithmetic_from_kind urem = urem_create ops
  arithmetic_from_kind srem = srem_create ops
  arithmetic_from_kind and = and_create ops
  arithmetic_from_kind or = or_create ops
  arithmetic_from_kind xor = xor_create ops
  arithmetic_from_kind shl = shl_create ops
  arithmetic_from_kind lshr = lshr_create ops
  arithmetic_from_kind ashr = ashr_create ops

  abbrev pub comparison_from_kind : CompareKind → Expr → Expr → Option Expr
  comparison_from_kind eq = eq_create ops
  comparison_from_kind ne = ne_create ops
  comparison_from_kind ult = ult_create ops
  comparison_from_kind ule = ule_create ops
  comparison_from_kind ugt = ugt_create ops
  comparison_from_kind uge = uge_create ops
  comparison_from_kind slt = slt_create ops
  comparison_from_kind sle = sle_create ops
  comparison_from_kind sgt = sgt_create ops
  comparison_from_kind sge = sge_create ops

  -- A wrong number of arguments, or one of the wrong kind, fails an assertion.
  abbrev pub create_from_kind : Kind → List CreateArg → Option Expr
  create_from_kind not_optimized_kind (an_expr e ∷ []) = some (not_optimized e)
  create_from_kind select_kind (an_expr c ∷ an_expr t ∷ an_expr f ∷ []) = select_create ops c t f
  create_from_kind concat_kind (an_expr l ∷ an_expr r ∷ []) = concat_create ops l r
  create_from_kind zext_kind (an_expr e ∷ a_width w ∷ []) = zext_create ops e w
  create_from_kind sext_kind (an_expr e ∷ a_width w ∷ []) = sext_create ops e w
  create_from_kind (arithmetic_kind k) (an_expr l ∷ an_expr r ∷ []) = arithmetic_from_kind k l r
  create_from_kind (comparison_kind k) (an_expr l ∷ an_expr r ∷ []) = comparison_from_kind k l r
  create_from_kind k args = none
