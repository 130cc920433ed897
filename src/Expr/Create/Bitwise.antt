-- ===== src/Expr/Create/Bitwise.antt =====
-- klee/lib/Expr/Expr.cpp: the macro BCREATE_R, and create of And, Or and Not.
use cgs.Prelude.{ℕ, ◌==◌, Option, some, ◌>>◌, assert, if◌then◌else◌}
use cgs.Expr.Node.{
  Constness, a_constant, no_constant, constness, Expr, ArithmeticKind, constant, negation,
  arithmetic, and, or, width,
}
use cgs.Expr.ApInt.{ApInt}
use cgs.Expr.Constant.{constant_arithmetic, constant_not, is_zero, is_all_ones}

module _ (ops : ApInt) where
  -- BCREATE_R: createPartialR, createPartial, and create for what is left
  abbrev pub binary_by :
      ArithmeticKind
      → (ℕ → ℕ → Expr → Option Expr)
      → (Expr → ℕ → ℕ → Option Expr)
      → (Expr → Expr → Option Expr)
      → {l r : Expr} → Constness l
      → Constness r
      → Option Expr
  binary_by k partial_r partial other (a_constant w c) (a_constant v d) =
      constant_arithmetic ops k w c d
  binary_by k partial_r partial other (a_constant w c) (no_constant r h) = partial_r w c r
  binary_by k partial_r partial other (no_constant l h) (a_constant w c) = partial l w c
  binary_by k partial_r partial other (no_constant l h) (no_constant r i) = other l r

  abbrev pub and_partial : Expr → ℕ → ℕ → Option Expr
  and_partial l w c =
      if is_all_ones w c
      then some l
      else if is_zero c
      then some (constant w c)
      else some (arithmetic and l (constant w c))

  abbrev pub and_partial_r : ℕ → ℕ → Expr → Option Expr
  and_partial_r w c r = and_partial r w c

  abbrev pub and_create : Expr → Expr → Option Expr
  and_create l r =
      assert (width l == width r)
      >> binary_by and and_partial_r and_partial (λ x y. some (arithmetic and x y)) (constness l)
          (constness r)

  abbrev pub or_partial : Expr → ℕ → ℕ → Option Expr
  or_partial l w c =
      if is_all_ones w c
      then some (constant w c)
      else if is_zero c
      then some l
      else some (arithmetic or l (constant w c))

  abbrev pub or_partial_r : ℕ → ℕ → Expr → Option Expr
  or_partial_r w c r = or_partial r w c

  abbrev pub or_create : Expr → Expr → Option Expr
  or_create l r =
      assert (width l == width r)
      >> binary_by or or_partial_r or_partial (λ x y. some (arithmetic or x y)) (constness l)
          (constness r)

  abbrev pub not_create_by : {e : Expr} → Constness e → Option Expr
  not_create_by (a_constant w c) = some (constant_not ops w c)
  not_create_by (no_constant e h) = some (negation e)

  abbrev pub not_create : Expr → Option Expr
  not_create e = not_create_by (constness e)
