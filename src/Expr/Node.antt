-- ===== src/Expr/Node.antt =====
-- klee/include/klee/Expr/Expr.h: the kinds of expressions, with their widths in bits. Nodes never
-- change after they are made, so that sharing, counts of references and cached hashes do not show.
use native.Mathlib.Decide.{ℕ_discrete}
use cgs.Prelude.{
  ℕ, suc, ◌+◌, ◌==◌, List, Option, some, Bool, true, false, not, ◌&&◌, ◌≡◌, refl, ◌>>◌, assert,
}

pub data ArithmeticKind : Type 0 where
  add : ArithmeticKind
  sub : ArithmeticKind
  mul : ArithmeticKind
  udiv : ArithmeticKind
  sdiv : ArithmeticKind
  urem : ArithmeticKind
  srem : ArithmeticKind
  and : ArithmeticKind
  or : ArithmeticKind
  xor : ArithmeticKind
  shl : ArithmeticKind
  lshr : ArithmeticKind
  ashr : ArithmeticKind

abbrev pub is_division : ArithmeticKind → Bool
is_division udiv = true
is_division sdiv = true
is_division urem = true
is_division srem = true
is_division k = false

pub data CompareKind : Type 0 where
  eq : CompareKind
  ne : CompareKind
  ult : CompareKind
  ule : CompareKind
  ugt : CompareKind
  uge : CompareKind
  slt : CompareKind
  sle : CompareKind
  sgt : CompareKind
  sge : CompareKind

-- An array of size elements, symbolic where it has no constant values.
pub record Array : Type 0 where
  pub name : ℕ
  pub size : ℕ
  pub domain : ℕ
  pub range : ℕ
  pub constant_values : List ℕ

-- A constant has its width and its value. A read has the root and the head of its update list.
mutual
  pub data Expr : Type 0 where
    constant : ℕ → ℕ → Expr
    not_optimized : Expr → Expr
    read : Array → UpdateNode → Expr → Expr
    select : Expr → Expr → Expr → Expr
    concat : Expr → Expr → Expr
    extract : Expr → ℕ → ℕ → Expr
    zext : Expr → ℕ → Expr
    sext : Expr → ℕ → Expr
    negation : Expr → Expr
    arithmetic : ArithmeticKind → Expr → Expr → Expr
    comparison : CompareKind → Expr → Expr → Expr

  -- From the most recent write to the least recent one: its index, its value, and the next node.
  pub data UpdateNode : Type 0 where
    no_update : UpdateNode
    update : Expr → Expr → UpdateNode → UpdateNode

unfoldable pub Array-discrete : Discrete Array
Array-discrete = hlevel (ℕ_discrete)

unfoldable pub Expr-discrete : Discrete Expr
Expr-discrete = hlevel (ℕ_discrete, Array-discrete)

-- Expr::getWidth
abbrev pub width : Expr → ℕ
width (constant w v) = w
width (not_optimized e) = width e
width (read root head index) = root.range
width (select c t f) = width t
width (concat l r) = width l + width r
width (extract e offset w) = w
width (zext e w) = w
width (sext e w) = w
width (negation e) = width e
width (arithmetic k l r) = width l
width (comparison k l r) = 1

-- dyn_cast<ConstantExpr>, which gives the constant or leaves the expression as it is.
abbrev pub is_constant : Expr → Bool
is_constant (constant w v) = true
is_constant _ = false

pub data Constness : Expr → Type 0 where
  a_constant : (w v : ℕ) → Constness (constant w v)
  no_constant : (e : Expr) → is_constant e ≡ false → Constness e

abbrev pub constness : (e : Expr) → Constness e
constness (constant w v) = a_constant w v
constness (not_optimized e) = no_constant (not_optimized e) refl
constness (read root head index) = no_constant (read root head index) refl
constness (select c t f) = no_constant (select c t f) refl
constness (concat l r) = no_constant (concat l r) refl
constness (extract e offset w) = no_constant (extract e offset w) refl
constness (zext e w) = no_constant (zext e w) refl
constness (sext e w) = no_constant (sext e w) refl
constness (negation e) = no_constant (negation e) refl
constness (arithmetic k l r) = no_constant (arithmetic k l r) refl
constness (comparison k l r) = no_constant (comparison k l r) refl

-- The dyn_casts of ConstantSpecializedExprBuilder::Not
pub data NotOperand : Expr → Type 0 where
  a_negation : (e : Expr) → NotOperand (negation e)
  no_negation : {e : Expr} → Constness e → NotOperand e

abbrev pub not_operand : (e : Expr) → NotOperand e
not_operand (negation e) = a_negation e
not_operand e = no_negation (constness e)

-- The kinds between which the sums and differences of ConstantFoldingBuilder switch
pub data Term : Expr → Type 0 where
  a_sum : {a b : Expr} → Constness a → Constness b → Term (arithmetic add a b)
  a_difference : {a b : Expr} → Constness a → Constness b → Term (arithmetic sub a b)
  another_term : (e : Expr) → Term e

abbrev pub term : (e : Expr) → Term e
term (arithmetic add a b) = a_sum (constness a) (constness b)
term (arithmetic sub a b) = a_difference (constness a) (constness b)
term e = another_term e

-- The dyn_cast of SimplifyingBuilder::Not
pub data OrOperand : Expr → Type 0 where
  an_or : (a b : Expr) → OrOperand (arithmetic or a b)
  no_or : (e : Expr) → OrOperand e

abbrev pub or_operand : (e : Expr) → OrOperand e
or_operand (arithmetic or a b) = an_or a b
or_operand e = no_or e

-- ConstantExpr::isTrue, and the two of Expr, which first assert the width.
abbrev pub is_true_constant : ℕ → ℕ → Bool
is_true_constant w v = (w == 1) && not (v == 0)

-- A division of two constants by 0, which APInt fails
abbrev pub divides_by_zero : {l r : Expr} → Constness l → Constness r → Bool
divides_by_zero (a_constant w a) (a_constant v b) = b == 0
divides_by_zero x y = false

abbrev pub IsSafe : ArithmeticKind → Expr → Expr → Type 0
IsSafe k l r = (is_division k && divides_by_zero (constness l) (constness r)) ≡ false

pub plain-IsSafe : (k : ArithmeticKind) (l r : Expr) → is_division k ≡ false → IsSafe k l r
plain-IsSafe k l r plain = rw plain refl

abbrev pub is_false_by : {e : Expr} → Constness e → Option Bool
is_false_by (a_constant w v) = assert (w == 1) >> some ((w == 1) && (v == 0))
is_false_by (no_constant e h) = assert (width e == 1) >> some false

abbrev pub is_false : Expr → Option Bool
is_false e = is_false_by (constness e)

-- How many nodes an expression has, without those of its update lists.
abbrev pub size : Expr → ℕ
size (constant w v) = 1
size (not_optimized e) = suc (size e)
size (read root head index) = 2 + size index
size (select c t f) = suc (size c + size t + size f)
size (concat l r) = suc (size l + size r)
size (extract e offset w) = suc (size e)
size (zext e w) = suc (size e)
size (sext e w) = suc (size e)
size (negation e) = suc (size e)
size (arithmetic k l r) = suc (size l + size r)
size (comparison k l r) = suc (size l + size r)
