-- ===== src/Expr/Create/Sum.antt =====
-- klee/lib/Expr/Expr.cpp: create of Xor, Mul, Add and Sub.
use cgs.Prelude.{
  ℕ, zero, suc, ◌+◌, ◌==◌, ◌≡◌, Option, none, some, ◌>>=◌, ◌>>◌, assert, if◌then◌else◌,
}
use cgs.Expr.Node.{
  Constness, a_constant, no_constant, constness, Expr, ArithmeticKind, constant, arithmetic, add,
  sub, mul, and, xor, width, size, Expr-discrete,
}
use cgs.Expr.ApInt.{ApInt}
use cgs.Expr.Constant.{constant_arithmetic, is_zero, is_one}
use cgs.Expr.Create.Bitwise.{binary_by, and_partial_r}
use cgs.Expr.Create.Eq.{EqOperand, an_add, a_sub, eq_operand, eq_partial_r}

module _ (ops : ApInt) where
  abbrev pub xor_partial_r : ℕ → ℕ → Expr → Option Expr
  xor_partial_r w c r =
      if is_zero c
      then some r
      else if w == 1
      then eq_partial_r ops 1 0 r
      else some (arithmetic xor (constant w c) r)

  abbrev pub xor_partial : Expr → ℕ → ℕ → Option Expr
  xor_partial l w c = xor_partial_r w c l

  abbrev pub xor_other : Expr → Expr → Option Expr
  xor_other l r = some (arithmetic xor l r)

  abbrev pub xor_create : Expr → Expr → Option Expr
  xor_create l r =
      assert (width l == width r)
      >> binary_by ops xor xor_partial_r xor_partial xor_other (constness l) (constness r)

  abbrev pub mul_partial_r : ℕ → ℕ → Expr → Option Expr
  mul_partial_r w c r =
      if w == 1
      then and_partial_r ops w c r
      else if is_one c
      then some r
      else if is_zero c
      then some (constant w c)
      else some (arithmetic mul (constant w c) r)

  abbrev pub mul_partial : Expr → ℕ → ℕ → Option Expr
  mul_partial l w c = mul_partial_r w c l

  abbrev pub mul_other : Expr → Expr → Option Expr
  mul_other l r = if width l == 1 then some (arithmetic and l r) else some (arithmetic mul l r)

  abbrev pub mul_create : Expr → Expr → Option Expr
  mul_create l r =
      assert (width l == width r)
      >> binary_by ops mul mul_partial_r mul_partial mul_other (constness l) (constness r)

  -- create with a constant on the left; `partial` is what createPartialR gives.
  abbrev pub constant_left_by :
      ArithmeticKind → ℕ → ℕ → {e : Expr} → Constness e → Option Expr → Option Expr
  constant_left_by k w c (a_constant v d) partial =
      assert (w == v) >> constant_arithmetic ops k w c d
  constant_left_by k w c (no_constant e h) partial = assert (w == width e) >> partial

  -- AddExpr_createPartialR and SubExpr_createPartialR. The constant of the operand is added first.
  abbrev mutual
    pub add_partial_by : ℕ → ℕ → {r : Expr} → EqOperand r → Option Expr
    add_partial_by w c (an_add {b = b} (a_constant v d) y) =
        let rest = add_partial_by w (ops.arithmetic_op add w c d) y in
        if w == 1
        then xor_partial_r w c (arithmetic add (constant v d) b)
        else if is_zero c
        then some (arithmetic add (constant v d) b)
        else assert (w == v)
          >> constant_left_by add w (ops.arithmetic_op add w c d) (constness b) rest
    add_partial_by w c (a_sub {b = b} (a_constant v d) y) =
        let rest = sub_partial_by w (ops.arithmetic_op add w c d) y in
        if w == 1
        then xor_partial_r w c (arithmetic sub (constant v d) b)
        else if is_zero c
        then some (arithmetic sub (constant v d) b)
        else assert (w == v)
          >> constant_left_by sub w (ops.arithmetic_op add w c d) (constness b) rest
    add_partial_by w c {r = r} y =
        if w == 1
        then xor_partial_r w c r
        else if is_zero c
        then some r
        else some (arithmetic add (constant w c) r)

    pub sub_partial_by : ℕ → ℕ → {r : Expr} → EqOperand r → Option Expr
    sub_partial_by w c (an_add {b = b} (a_constant v d) y) =
        let rest = sub_partial_by w (ops.arithmetic_op sub w c d) y in
        if w == 1
        then xor_partial_r w c (arithmetic add (constant v d) b)
        else assert (w == v)
          >> constant_left_by sub w (ops.arithmetic_op sub w c d) (constness b) rest
    sub_partial_by w c (a_sub {b = b} (a_constant v d) y) =
        let rest = add_partial_by w (ops.arithmetic_op sub w c d) y in
        if w == 1
        then xor_partial_r w c (arithmetic sub (constant v d) b)
        else assert (w == v)
          >> constant_left_by add w (ops.arithmetic_op sub w c d) (constness b) rest
    sub_partial_by w c {r = r} y =
        if w == 1 then xor_partial_r w c r else some (arithmetic sub (constant w c) r)

  abbrev pub add_partial_r : ℕ → ℕ → Expr → Option Expr
  add_partial_r w c r = add_partial_by w c (eq_operand r)

  abbrev pub sub_partial_r : ℕ → ℕ → Expr → Option Expr
  sub_partial_r w c r = sub_partial_by w c (eq_operand r)

  abbrev pub add_partial : Expr → ℕ → ℕ → Option Expr
  add_partial l w c = add_partial_r w c l

  -- SubExpr_createPartial
  abbrev pub sub_partial : Expr → ℕ → ℕ → Option Expr
  sub_partial l w c = add_partial l w (ops.arithmetic_op sub w 0 c)

  -- AddExpr::create and SubExpr::create of a constant and an expression, or the other way round
  abbrev pub add_to : ℕ → ℕ → Expr → Option Expr
  add_to w c e = constant_left_by add w c (constness e) (add_partial_r w c e)

  abbrev pub sub_from : ℕ → ℕ → Expr → Option Expr
  sub_from w c e = constant_left_by sub w c (constness e) (sub_partial_r w c e)

  abbrev pub sub_by : {e : Expr} → Constness e → ℕ → ℕ → Option Expr
  sub_by (a_constant v d) w c = assert (v == w) >> constant_arithmetic ops sub v d c
  sub_by (no_constant e h) w c = assert (width e == w) >> sub_partial e w c

  -- AddExpr_create and SubExpr_create, over create of fewer nodes
  module _ (add_rec sub_rec : Expr → Expr → Option Expr) where
    abbrev pub add_right_by : Expr → {r : Expr} → EqOperand r → Option Expr
    add_right_by l (an_add {b = b} (a_constant w k) y) = add_rec l b >>= add_to w k
    add_right_by l (a_sub {b = b} (a_constant w k) y) = sub_rec l b >>= add_to w k
    add_right_by l {r = r} y = some (arithmetic add l r)

    abbrev pub add_left_by : {l : Expr} → EqOperand l → Expr → Option Expr
    add_left_by (an_add {b = a} (a_constant w k) y) r = add_rec a r >>= add_to w k
    add_left_by (a_sub {b = a} (a_constant w k) y) r = sub_rec r a >>= add_to w k
    add_left_by {l = l} y r = add_right_by l (eq_operand r)

    abbrev pub add_other : Expr → Expr → Option Expr
    add_other l r = if width l == 1 then xor_other l r else add_left_by (eq_operand l) r

    abbrev pub sub_right_by : Expr → {r : Expr} → EqOperand r → Option Expr
    sub_right_by l (an_add {b = b} (a_constant w k) y) =
        sub_rec l b >>= λ s. sub_by (constness s) w k
    sub_right_by l (a_sub {b = b} (a_constant w k) y) =
        add_rec l b >>= λ s. sub_by (constness s) w k
    sub_right_by l {r = r} y = some (arithmetic sub l r)

    abbrev pub sub_left_by : {l : Expr} → EqOperand l → Expr → Option Expr
    sub_left_by (an_add {b = a} (a_constant w k) y) r = sub_rec a r >>= add_to w k
    sub_left_by (a_sub {b = a} (a_constant w k) y) r = add_rec a r >>= sub_from w k
    sub_left_by {l = l} y r = sub_right_by l (eq_operand r)

    abbrev pub sub_same_by : {l r : Expr} → Dec (l ≡ r) → Option Expr
    sub_same_by {l = l} (yes p) = some (constant (width l) 0)
    sub_same_by {l = l} {r = r} (no p) = sub_left_by (eq_operand l) r

    abbrev pub sub_other : Expr → Expr → Option Expr
    sub_other l r = if width l == 1 then xor_other l r else sub_same_by (Expr-discrete l r)

  -- AddExpr::create and SubExpr::create, with fuel for more than the nodes of both operands
  abbrev mutual
    pub add_at : ℕ → Expr → Expr → Option Expr
    add_at zero l r = none
    add_at (suc n) l r =
        assert (width l == width r)
        >> binary_by ops add add_partial_r add_partial (add_other (add_at n) (sub_at n))
            (constness l) (constness r)

    pub sub_at : ℕ → Expr → Expr → Option Expr
    sub_at zero l r = none
    sub_at (suc n) l r =
        assert (width l == width r)
        >> binary_by ops sub sub_partial_r sub_partial (sub_other (add_at n) (sub_at n))
            (constness l) (constness r)

  abbrev pub add_create : Expr → Expr → Option Expr
  add_create l r = add_at (suc (size l + size r)) l r

  abbrev pub sub_create : Expr → Expr → Option Expr
  sub_create l r = sub_at (suc (size l + size r)) l r
