-- ===== src/Expr/Folding.antt =====
-- klee/lib/Expr/ExprBuilder.cpp: class ConstantFoldingBuilder. Its methods are written over builder,
-- the builder that it is in, and base. A cast that the code does after the dispatch on constants
-- is the argument of type Constness or Term.
use cgs.Prelude.{ℕ, zero, suc, ◌+◌, ◌*◌, ◌==◌, Option, some, ◌>>=◌, if◌then◌else◌}
use cgs.Expr.Node.{
  Constness, a_constant, no_constant, constness, Term, a_sum, a_difference, another_term, term,
  Expr, ArithmeticKind, CompareKind, constant, arithmetic, add, sub, mul, and, or, xor, eq, size,
  is_true_constant,
}
use cgs.Expr.ApInt.{ApInt}
use cgs.Expr.Constant.{constant_result, constant_neg, is_zero, is_one, is_all_ones}
use cgs.Expr.Builder.{ExprBuilder, chained_builder, no_builder}
use cgs.Expr.Specialized.{specialized_builder}

module _ (ops : ApInt) (builder base : ExprBuilder) where
  -- Add with a constant on the left: the switch, and what stands before it
  abbrev pub add_to_constant : ℕ → ℕ → {r : Expr} → Term r → Option Expr
  add_to_constant w c (a_sum {b = y} (a_constant v d) e) =
      builder.build_arithmetic add (constant_result ops add w c d) y
  add_to_constant w c (a_sum (no_constant x h) (a_constant v d)) =
      builder.build_arithmetic add (constant_result ops add w c d) x
  add_to_constant w c (a_sum (no_constant x h) (no_constant y k)) =
      base.build_arithmetic add (constant w c) (arithmetic add x y)
  add_to_constant w c (a_difference {b = y} (a_constant v d) e) =
      builder.build_arithmetic sub (constant_result ops add w c d) y
  add_to_constant w c (a_difference (no_constant x h) (a_constant v d)) =
      builder.build_arithmetic add (constant_result ops sub w c d) x
  add_to_constant w c (a_difference (no_constant x h) (no_constant y k)) =
      base.build_arithmetic add (constant w c) (arithmetic sub x y)
  add_to_constant w c (another_term r) = base.build_arithmetic add (constant w c) r

  abbrev pub add_constant : ℕ → ℕ → Expr → Option Expr
  add_constant w c r = if is_zero c then some r else add_to_constant w c (term r)

  -- Add without a constant: the second switch, and the first one
  abbrev pub add_right : Expr → {r : Expr} → Term r → Option Expr
  add_right l (a_sum {b = y} (a_constant v d) e) =
      builder.build_arithmetic add l y >>= λ s. builder.build_arithmetic add (constant v d) s
  add_right l (a_sum (no_constant x h) (a_constant v d)) =
      builder.build_arithmetic add l x >>= λ s. builder.build_arithmetic add (constant v d) s
  add_right l (a_sum (no_constant x h) (no_constant y k)) =
      base.build_arithmetic add l (arithmetic add x y)
  add_right l (a_difference {b = y} (a_constant v d) e) =
      builder.build_arithmetic sub l y >>= λ s. builder.build_arithmetic add (constant v d) s
  add_right l (a_difference (no_constant x h) (a_constant v d)) =
      builder.build_arithmetic add l x >>= λ s.
      builder.build_arithmetic add (constant_neg ops v d) s
  add_right l (a_difference (no_constant x h) (no_constant y k)) =
      base.build_arithmetic add l (arithmetic sub x y)
  add_right l (another_term r) = base.build_arithmetic add l r

  abbrev pub add_left : {l : Expr} → Term l → Expr → Option Expr
  add_left (a_sum {a = x} {b = y} c d) r =
      builder.build_arithmetic add y r >>= λ s. builder.build_arithmetic add x s
  add_left (a_difference {a = x} {b = y} c d) r =
      builder.build_arithmetic sub r y >>= λ s. builder.build_arithmetic add x s
  add_left (another_term l) r = add_right l (term r)

  -- Sub with a constant on the left
  abbrev pub sub_from_constant : ℕ → ℕ → {r : Expr} → Term r → Option Expr
  sub_from_constant w c (a_sum {b = y} (a_constant v d) e) =
      builder.build_arithmetic sub (constant_result ops sub w c d) y
  sub_from_constant w c (a_sum (no_constant x h) (a_constant v d)) =
      builder.build_arithmetic sub (constant_result ops sub w c d) x
  sub_from_constant w c (a_sum (no_constant x h) (no_constant y k)) =
      base.build_arithmetic sub (constant w c) (arithmetic add x y)
  sub_from_constant w c (a_difference {b = y} (a_constant v d) e) =
      builder.build_arithmetic add (constant_result ops sub w c d) y
  sub_from_constant w c (a_difference (no_constant x h) (a_constant v d)) =
      builder.build_arithmetic sub (constant_result ops add w c d) x
  sub_from_constant w c (a_difference (no_constant x h) (no_constant y k)) =
      base.build_arithmetic sub (constant w c) (arithmetic sub x y)
  sub_from_constant w c (another_term r) = base.build_arithmetic sub (constant w c) r

  -- Sub with a constant on the right
  abbrev pub sub_constant : Expr → ℕ → ℕ → Option Expr
  sub_constant l w c = add_constant w (ops.neg w c) l

  -- Sub without a constant: the second switch, and the first one
  abbrev pub sub_right : Expr → {r : Expr} → Term r → Option Expr
  sub_right l (a_sum {b = y} (a_constant v d) e) = builder.build_arithmetic sub l y >>= λ s.
      builder.build_arithmetic add (constant_neg ops v d) s
  sub_right l (a_sum (no_constant x h) (a_constant v d)) = builder.build_arithmetic sub l x >>= λ s.
      builder.build_arithmetic add (constant_neg ops v d) s
  sub_right l (a_sum (no_constant x h) (no_constant y k)) =
      base.build_arithmetic sub l (arithmetic add x y)
  sub_right l (a_difference {b = y} (a_constant v d) e) = builder.build_arithmetic add l y >>= λ s.
      builder.build_arithmetic add (constant_neg ops v d) s
  sub_right l (a_difference (no_constant x h) (a_constant v d)) =
      builder.build_arithmetic sub l x >>= λ s. builder.build_arithmetic add (constant v d) s
  sub_right l (a_difference (no_constant x h) (no_constant y k)) =
      base.build_arithmetic sub l (arithmetic sub x y)
  sub_right l (another_term r) = base.build_arithmetic sub l r

  abbrev pub sub_left : {l : Expr} → Term l → Expr → Option Expr
  sub_left (a_sum {a = x} {b = y} c d) r =
      builder.build_arithmetic sub y r >>= λ s. builder.build_arithmetic add x s
  sub_left (a_difference {a = x} {b = y} c d) r =
      builder.build_arithmetic add y r >>= λ s. builder.build_arithmetic sub x s
  sub_left (another_term l) r = sub_right l (term r)

  -- Mul, And, Or and Xor with a constant
  abbrev pub mul_constant : ℕ → ℕ → Expr → Option Expr
  mul_constant w c r =
      if is_zero c
      then some (constant w c)
      else if is_one c
      then some r
      else base.build_arithmetic mul (constant w c) r

  abbrev pub and_constant : ℕ → ℕ → Expr → Option Expr
  and_constant w c r =
      if is_zero c
      then some (constant w c)
      else if is_all_ones w c
      then some r
      else base.build_arithmetic and (constant w c) r

  abbrev pub or_constant : ℕ → ℕ → Expr → Option Expr
  or_constant w c r =
      if is_zero c
      then some r
      else if is_all_ones w c
      then some (constant w c)
      else base.build_arithmetic or (constant w c) r

  abbrev pub xor_constant : ℕ → ℕ → Expr → Option Expr
  xor_constant w c r = if is_zero c then some r else base.build_arithmetic xor (constant w c) r

  -- Eq with a constant
  abbrev pub eq_constant : ℕ → ℕ → Expr → Option Expr
  eq_constant w c r =
      if w == 1
      then (if is_true_constant w c then some r else base.build_not r)
      else base.build_comparison eq (constant w c) r

  -- The overloads for a constant on the left, on the right, and on neither side. The builder that
  -- it is in computes with two constants itself.
  abbrev pub add_by : {l r : Expr} → Constness l → Constness r → Option Expr
  add_by (a_constant w c) (a_constant v d) = base.build_arithmetic add (constant w c) (constant v d)
  add_by (a_constant w c) (no_constant r h) = add_constant w c r
  add_by (no_constant l h) (a_constant w c) = add_constant w c l
  add_by (no_constant l h) (no_constant r k) = add_left (term l) r

  abbrev pub sub_by : {l r : Expr} → Constness l → Constness r → Option Expr
  sub_by (a_constant w c) (a_constant v d) = base.build_arithmetic sub (constant w c) (constant v d)
  sub_by (a_constant w c) (no_constant r h) = sub_from_constant w c (term r)
  sub_by (no_constant l h) (a_constant w c) = sub_constant l w c
  sub_by (no_constant l h) (no_constant r k) = sub_left (term l) r

  -- Mul, And, Or, Xor and Eq: with a constant on the right the one on the left is called.
  abbrev pub commuting_by :
      (ℕ → ℕ → Expr → Option Expr)
      → (Expr → Expr → Option Expr)
      → {l r : Expr} → Constness l
      → Constness r
      → Option Expr
  commuting_by f g (a_constant w c) (a_constant v d) = g (constant w c) (constant v d)
  commuting_by f g (a_constant w c) (no_constant r h) = f w c r
  commuting_by f g (no_constant l h) (a_constant w c) = f w c l
  commuting_by f g (no_constant l h) (no_constant r k) = g l r

  abbrev pub fold_arithmetic : ArithmeticKind → Expr → Expr → Option Expr
  fold_arithmetic add l r = add_by (constness l) (constness r)
  fold_arithmetic sub l r = sub_by (constness l) (constness r)
  fold_arithmetic mul l r =
      commuting_by mul_constant (base.build_arithmetic mul) (constness l) (constness r)
  fold_arithmetic and l r =
      commuting_by and_constant (base.build_arithmetic and) (constness l) (constness r)
  fold_arithmetic or l r =
      commuting_by or_constant (base.build_arithmetic or) (constness l) (constness r)
  fold_arithmetic xor l r =
      commuting_by xor_constant (base.build_arithmetic xor) (constness l) (constness r)
  fold_arithmetic k l r = base.build_arithmetic k l r

  abbrev pub fold_comparison : CompareKind → Expr → Expr → Option Expr
  fold_comparison eq l r =
      commuting_by eq_constant (base.build_comparison eq) (constness l) (constness r)
  fold_comparison k l r = base.build_comparison k l r

  abbrev pub folding_helper : ExprBuilder
  folding_helper = record (chained_builder base) {
    build_arithmetic = fold_arithmetic;
    build_comparison = fold_comparison;
  }

-- More than the calls for operands with so many nodes in all, and so many on the left
abbrev pub fold_fuel : ℕ → ℕ → ℕ
fold_fuel total left = suc (total * suc total + left)

-- The builder with fuel for the calls from one of its methods to another one
module _ (ops : ApInt) (base : ExprBuilder) where
  abbrev pub folding_at : ℕ → ExprBuilder
  folding_at zero = no_builder
  folding_at (suc n) = specialized_builder ops (folding_helper ops (folding_at n) base)

  -- ConstantFoldingExprBuilder: only Add and Sub call the builder that they are in.
  abbrev pub constant_folding_builder : ExprBuilder
  constant_folding_builder = record (folding_at 1) {
    build_arithmetic =
        λ k l r. (folding_at (fold_fuel (size l + size r) (size l))).build_arithmetic k l r;
  }
