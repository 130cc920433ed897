-- ===== src/Expr/Create/Order.antt =====
-- klee/lib/Expr/Expr.cpp: create of the divisions, the shifts and the orders.
use cgs.Prelude.{◌==◌, Option, some, ◌>>=◌, ◌>>◌, assert, if◌then◌else◌}
use cgs.Expr.Node.{
  Constness, a_constant, constness, Expr, ArithmeticKind, CompareKind, constant, arithmetic,
  comparison, udiv, sdiv, urem, srem, shl, lshr, ashr, ult, ule, slt, sle, width,
}
use cgs.Expr.ApInt.{ApInt}
use cgs.Expr.Constant.{constant_arithmetic, constant_comparison}
use cgs.Expr.Create.Bitwise.{and_create, or_create}
use cgs.Expr.Create.Eq.{create_is_zero}

module _ (ops : ApInt) where
  abbrev pub udiv_other : Expr → Expr → Option Expr
  udiv_other l r = if width l == 1 then some l else some (arithmetic udiv l r)

  abbrev pub sdiv_other : Expr → Expr → Option Expr
  sdiv_other l r = if width l == 1 then some l else some (arithmetic sdiv l r)

  abbrev pub urem_other : Expr → Expr → Option Expr
  urem_other l r = if width l == 1 then some (constant 1 0) else some (arithmetic urem l r)

  abbrev pub srem_other : Expr → Expr → Option Expr
  srem_other l r = if width l == 1 then some (constant 1 0) else some (arithmetic srem l r)

  abbrev pub shl_other : Expr → Expr → Option Expr
  shl_other l r =
      if width l == 1 then create_is_zero ops r >>= and_create ops l else some (arithmetic shl l r)

  abbrev pub lshr_other : Expr → Expr → Option Expr
  lshr_other l r =
      if width l == 1 then create_is_zero ops r >>= and_create ops l else some (arithmetic lshr l r)

  abbrev pub ashr_other : Expr → Expr → Option Expr
  ashr_other l r = if width l == 1 then some l else some (arithmetic ashr l r)

  -- The macro BCREATE
  abbrev pub create_by :
      ArithmeticKind
      → (Expr → Expr → Option Expr)
      → {l r : Expr} → Constness l
      → Constness r
      → Option Expr
  create_by k other (a_constant w c) (a_constant v d) = constant_arithmetic ops k w c d
  create_by k other {l = l} {r = r} x y = other l r

  abbrev pub plain_create : ArithmeticKind → (Expr → Expr → Option Expr) → Expr → Expr → Option Expr
  plain_create k other l r =
      assert (width l == width r) >> create_by k other (constness l) (constness r)

  abbrev pub udiv_create : Expr → Expr → Option Expr
  udiv_create = plain_create udiv udiv_other

  abbrev pub sdiv_create : Expr → Expr → Option Expr
  sdiv_create = plain_create sdiv sdiv_other

  abbrev pub urem_create : Expr → Expr → Option Expr
  urem_create = plain_create urem urem_other

  abbrev pub srem_create : Expr → Expr → Option Expr
  srem_create = plain_create srem srem_other

  abbrev pub shl_create : Expr → Expr → Option Expr
  shl_create = plain_create shl shl_other

  abbrev pub lshr_create : Expr → Expr → Option Expr
  lshr_create = plain_create lshr lshr_other

  abbrev pub ashr_create : Expr → Expr → Option Expr
  ashr_create = plain_create ashr ashr_other

  abbrev pub ult_other : Expr → Expr → Option Expr
  ult_other l r =
      if width l == 1
      then (create_is_zero ops l >>= λ e. and_create ops e r)
      else some (comparison ult l r)

  abbrev pub ule_other : Expr → Expr → Option Expr
  ule_other l r =
      if width l == 1
      then (create_is_zero ops l >>= λ e. or_create ops e r)
      else some (comparison ule l r)

  abbrev pub slt_other : Expr → Expr → Option Expr
  slt_other l r =
      if width l == 1 then create_is_zero ops r >>= and_create ops l else some (comparison slt l r)

  abbrev pub sle_other : Expr → Expr → Option Expr
  sle_other l r =
      if width l == 1 then create_is_zero ops r >>= or_create ops l else some (comparison sle l r)

  -- The macro CMPCREATE
  abbrev pub compare_by :
      CompareKind
      → (Expr → Expr → Option Expr)
      → {l r : Expr} → Constness l
      → Constness r
      → Option Expr
  compare_by k other (a_constant w c) (a_constant v d) = some (constant_comparison ops k w c d)
  compare_by k other {l = l} {r = r} x y = other l r

  abbrev pub order_create : CompareKind → (Expr → Expr → Option Expr) → Expr → Expr → Option Expr
  order_create k other l r =
      assert (width l == width r) >> compare_by k other (constness l) (constness r)

  abbrev pub ult_create : Expr → Expr → Option Expr
  ult_create = order_create ult ult_other

  abbrev pub ule_create : Expr → Expr → Option Expr
  ule_create = order_create ule ule_other

  abbrev pub slt_create : Expr → Expr → Option Expr
  slt_create = order_create slt slt_other

  abbrev pub sle_create : Expr → Expr → Option Expr
  sle_create = order_create sle sle_other

  abbrev pub ugt_create : Expr → Expr → Option Expr
  ugt_create l r = ult_create r l

  abbrev pub uge_create : Expr → Expr → Option Expr
  uge_create l r = ule_create r l

  abbrev pub sgt_create : Expr → Expr → Option Expr
  sgt_create l r = slt_create r l

  abbrev pub sge_create : Expr → Expr → Option Expr
  sge_create l r = sle_create r l
