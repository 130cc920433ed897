-- ===== src/Expr/Create/Eq.antt =====
-- klee/lib/Expr/Expr.cpp: create of Eq and Ne, createIsZero and createImplies. The option
-- const-array-opt is off, as it is by default.
use cgs.Prelude.{ℕ, ◌==◌, ◌≡◌, ◌&&◌, Option, some, ◌>>=◌, ◌>>◌, assert, if◌then◌else◌}
use cgs.Expr.Node.{
  Constness, a_constant, no_constant, constness, Expr, constant, zext, sext, arithmetic, comparison,
  eq, add, sub, or, width, is_true_constant, Expr-discrete,
}
use cgs.Expr.ApInt.{ApInt}
use cgs.Expr.Constant.{constant_comparison}
use cgs.Expr.Create.Bitwise.{and_create, or_create}

-- The casts of EqExpr_createPartialR, also of the operands that it goes into
pub data EqOperand : Expr → Type 0 where
  an_eq : {l : Expr} → Constness l → (r : Expr) → EqOperand (comparison eq l r)
  a_disjunction : {a b : Expr} → EqOperand a → EqOperand b → EqOperand (arithmetic or a b)
  a_sext : {e : Expr} → EqOperand e → (w : ℕ) → EqOperand (sext e w)
  a_zext : {e : Expr} → EqOperand e → (w : ℕ) → EqOperand (zext e w)
  an_add : {a b : Expr} → Constness a → EqOperand b → EqOperand (arithmetic add a b)
  a_sub : {a b : Expr} → Constness a → EqOperand b → EqOperand (arithmetic sub a b)
  another_operand : (e : Expr) → EqOperand e

abbrev pub eq_operand : (e : Expr) → EqOperand e
eq_operand (comparison eq l r) = an_eq (constness l) r
eq_operand (arithmetic or a b) = a_disjunction (eq_operand a) (eq_operand b)
eq_operand (sext e w) = a_sext (eq_operand e) w
eq_operand (zext e w) = a_zext (eq_operand e) w
eq_operand (arithmetic add a b) = an_add (constness a) (eq_operand b)
eq_operand (arithmetic sub a b) = a_sub (constness a) (eq_operand b)
eq_operand e = another_operand e

-- EqExpr_create
abbrev pub eq_other_by : {l r : Expr} → Dec (l ≡ r) → Option Expr
eq_other_by (yes p) = some (constant 1 1)
eq_other_by {l = l} {r = r} (no p) = some (comparison eq l r)

abbrev pub eq_other : Expr → Expr → Option Expr
eq_other l r = eq_other_by (Expr-discrete l r)

module _ (ops : ApInt) where
  -- EqExpr::create of an expression and a constant; `partial` is what createPartialR gives.
  abbrev pub eq_constant_by : {e : Expr} → Constness e → ℕ → ℕ → Option Expr → Option Expr
  eq_constant_by (a_constant v x) w d partial =
      assert (v == w) >> some (constant_comparison ops eq v x d)
  eq_constant_by (no_constant e h) w d partial = assert (width e == w) >> partial

  -- The double negation of EqExpr_createPartialR
  abbrev pub double_negation : ℕ → ℕ → {l : Expr} → Constness l → Expr → Option Expr
  double_negation w c (a_constant v d) r =
      if (v == 1) && (d == 0)
      then some r
      else eq_other (constant w c) (comparison eq (constant v d) r)
  double_negation w c (no_constant l h) r = eq_other (constant w c) (comparison eq l r)

  -- EqExpr_createPartialR
  abbrev pub eq_partial_by : ℕ → ℕ → {r : Expr} → EqOperand r → Option Expr
  eq_partial_by w c (an_eq {l = l} d r) =
      if w == 1
      then (if is_true_constant w c then some (comparison eq l r) else double_negation w c d r)
      else eq_other (constant w c) (comparison eq l r)
  eq_partial_by w c (a_disjunction {a = a} {b = b} x y) =
      let left = eq_partial_by (width a) 0 x in
      let right = eq_partial_by (width b) 0 y in
      if w == 1
      then (if is_true_constant w c
          then some (arithmetic or a b)
          else (eq_constant_by (constness a) (width a) 0 left >>= λ p.
              eq_constant_by (constness b) (width b) 0 right >>= λ q. and_create ops p q))
      else eq_other (constant w c) (arithmetic or a b)
  eq_partial_by w c (a_sext {e = e} x v) =
      let trunc = ops.zext_or_trunc w (width e) c in
      let rest = eq_partial_by (width e) trunc x in
      if w == 1
      then (if is_true_constant w c then some (sext e v) else eq_other (constant w c) (sext e v))
      else if c == ops.sext_or_trunc (width e) w trunc
      then eq_constant_by (constness e) (width e) trunc rest
      else some (constant 1 0)
  eq_partial_by w c (a_zext {e = e} x v) =
      let trunc = ops.zext_or_trunc w (width e) c in
      let rest = eq_partial_by (width e) trunc x in
      if w == 1
      then (if is_true_constant w c then some (zext e v) else eq_other (constant w c) (zext e v))
      else if c == ops.zext_or_trunc (width e) w trunc
      then eq_constant_by (constness e) (width e) trunc rest
      else some (constant 1 0)
  eq_partial_by w c (an_add {b = b} (a_constant v d) y) =
      let rest = eq_partial_by w (ops.arithmetic_op sub w c d) y in
      if w == 1
      then (if is_true_constant w c
          then some (arithmetic add (constant v d) b)
          else eq_other (constant w c) (arithmetic add (constant v d) b))
      else assert (w == v) >> rest
  eq_partial_by w c (an_add {b = b} (no_constant a h) y) =
      if (w == 1) && is_true_constant w c
      then some (arithmetic add a b)
      else eq_other (constant w c) (arithmetic add a b)
  eq_partial_by w c (a_sub {b = b} (a_constant v d) y) =
      let rest = eq_partial_by v (ops.arithmetic_op sub v d c) y in
      if w == 1
      then (if is_true_constant w c
          then some (arithmetic sub (constant v d) b)
          else eq_other (constant w c) (arithmetic sub (constant v d) b))
      else assert (v == w) >> rest
  eq_partial_by w c (a_sub {b = b} (no_constant a h) y) =
      if (w == 1) && is_true_constant w c
      then some (arithmetic sub a b)
      else eq_other (constant w c) (arithmetic sub a b)
  eq_partial_by w c (another_operand r) =
      if (w == 1) && is_true_constant w c then some r else eq_other (constant w c) r

  abbrev pub eq_partial_r : ℕ → ℕ → Expr → Option Expr
  eq_partial_r w c r = eq_partial_by w c (eq_operand r)

  -- EqExpr::create, NeExpr::create
  abbrev pub eq_by : {l r : Expr} → Constness l → Constness r → Option Expr
  eq_by (a_constant w c) (a_constant v d) = some (constant_comparison ops eq w c d)
  eq_by (a_constant w c) (no_constant r h) = eq_partial_r w c r
  eq_by (no_constant l h) (a_constant w c) = eq_partial_r w c l
  eq_by (no_constant l h) (no_constant r i) = eq_other l r

  abbrev pub eq_create : Expr → Expr → Option Expr
  eq_create l r = assert (width l == width r) >> eq_by (constness l) (constness r)

  abbrev pub ne_create : Expr → Expr → Option Expr
  ne_create l r = eq_create l r >>= λ e. eq_create (constant 1 0) e

  abbrev pub create_is_zero : Expr → Option Expr
  create_is_zero e = eq_create e (constant (width e) 0)

  abbrev pub create_implies : Expr → Expr → Option Expr
  create_implies hyp conc = create_is_zero hyp >>= λ e. or_create ops e conc
