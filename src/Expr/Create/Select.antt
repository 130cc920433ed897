-- ===== src/Expr/Create/Select.antt =====
-- klee/lib/Expr/Expr.cpp: create of Select.
use cgs.Prelude.{◌==◌, ◌≡◌, Option, some, ◌>>=◌, ◌>>◌, assert, if◌then◌else◌}
use cgs.Expr.Node.{
  Constness, a_constant, no_constant, constness, Expr, select, width, is_true_constant,
  Expr-discrete,
}
use cgs.Expr.ApInt.{ApInt}
use cgs.Expr.Create.Bitwise.{and_create, or_create}
use cgs.Expr.Create.Eq.{create_is_zero}

module _ (ops : ApInt) where
  -- c ? t : f is (c and t) or (not c and f), where one of t and f is a constant of one bit.
  abbrev pub select_bit : Expr → {t f : Expr} → Constness t → Constness f → Option Expr
  select_bit c {f = f} (a_constant w v) y =
      if is_true_constant w v
      then or_create ops c f
      else (create_is_zero ops c >>= λ e. and_create ops e f)
  select_bit c (no_constant t h) (a_constant w v) =
      if is_true_constant w v
      then (create_is_zero ops c >>= λ e. or_create ops e t)
      else and_create ops c t
  select_bit c (no_constant t h) (no_constant f i) = some (select c t f)

  abbrev pub select_same_by : Expr → {t f : Expr} → Dec (t ≡ f) → Option Expr
  select_same_by c {t = t} (yes p) = some t
  select_same_by c {t = t} {f = f} (no p) =
      if width t == 1 then select_bit c (constness t) (constness f) else some (select c t f)

  abbrev pub select_on : {c : Expr} → Constness c → Expr → Expr → Option Expr
  select_on (a_constant w v) t f = if is_true_constant w v then some t else some f
  select_on (no_constant c h) t f = select_same_by c (Expr-discrete t f)

  abbrev pub select_create : Expr → Expr → Expr → Option Expr
  select_create c t f =
      assert (width c == 1) >> (assert (width t == width f) >> select_on (constness c) t f)
