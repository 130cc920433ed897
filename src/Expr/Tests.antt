-- ===== src/Expr/Tests.antt =====
-- Runs of the builders of klee/lib/Expr/ExprBuilder.cpp, and the theorems at concrete inputs.
use cgs.Prelude.{ℕ, ◌≡◌, refl, [], true, false, none, some}
use cgs.Expr.Node.{
  Array, Expr, constant, read, negation, arithmetic, comparison, no_update, update, add, sub, udiv,
  and, or, ne, ugt, ult, Expr-discrete, Array-discrete,
}
use cgs.Expr.Machine.{machine}
use cgs.Expr.MachineLaws.{machine-ApIntLaws}
use cgs.Expr.Builder.{ExprBuilder, default_builder}
use cgs.Expr.Sound.{IsSound, default_builder_lem}
use cgs.Expr.Specialized.{specialized_builder}
use cgs.Expr.SpecializedLaws.{specialized_builder_lem}
use cgs.Expr.Folding.{constant_folding_builder}
use cgs.Expr.FoldingLaws.{constant_folding_builder_lem}
use cgs.Expr.Simplifying.{simplifying_builder}
use cgs.Expr.SimplifyingLaws.{simplifying_builder_lem}
use cgs.Expr.Kleaver.{simplifying_kind, chosen_builder, chosen_builder_lem}

abbrev bytes : Array
bytes = record { name = 0; size = 4; domain = 32; range = 8; constant_values = [] }

abbrev byte : ℕ → Expr
byte i = read bytes no_update (constant 32 i)

abbrev folding : ExprBuilder
folding = constant_folding_builder machine default_builder

abbrev simplifying : ExprBuilder
simplifying = chosen_builder machine simplifying_kind

-- A division by the constant 0 stops for a constant, and is built for anything else.
zero_division_folding_test :
    (folding.build_arithmetic udiv (constant 8 5) (constant 8 0) ≡ none)
    × (folding.build_arithmetic udiv (byte 0) (constant 8 0)
        ≡ some (arithmetic udiv (byte 0) (constant 8 0)))
zero_division_folding_test = (refl, refl)

-- 5 - (x + 7) is 254 - x, and x - (7 - y) is 249 + (x + y).
sub_sum_test :
    folding.build_arithmetic sub (constant 8 5) (arithmetic add (byte 0) (constant 8 7))
    ≡ some (arithmetic sub (constant 8 254) (byte 0))
sub_sum_test = refl

sub_difference_test :
    folding.build_arithmetic sub (byte 0) (arithmetic sub (constant 8 7) (byte 1))
    ≡ some (arithmetic add (constant 8 249) (arithmetic add (byte 0) (byte 1)))
sub_difference_test = refl

-- A write to another index is rolled back, one to an index that may be the same is not.
read_test :
    folding.build_read bytes
      (update (constant 32 1) (constant 8 9) (update (byte 2) (constant 8 8) no_update))
      (constant 32 0)
    ≡ some (read bytes (update (byte 2) (constant 8 8) no_update) (constant 32 0))
read_test = refl

-- !(a || b) is !a && !b, and x > y is y < x.
not_test :
    simplifying.build_not (arithmetic or (byte 0) (byte 1))
    ≡ some (arithmetic and (negation (byte 0)) (negation (byte 1)))
not_test = refl

ugt_test :
    simplifying.build_comparison ugt (byte 0) (byte 1) ≡ some (comparison ult (byte 1) (byte 0))
ugt_test = refl

same_test : simplifying.build_comparison ne (byte 0) (byte 0) ≡ some (constant 1 0)
unfolding Expr-discrete Array-discrete native.Mathlib.Decide.ℕ_discrete
same_test = refl

constant_folding_builder_lem_example : IsSound machine true folding
constant_folding_builder_lem_example =
    constant_folding_builder_lem machine machine-ApIntLaws default_builder
      (default_builder_lem machine true)

simplifying_builder_lem_example :
    IsSound machine false (simplifying_builder machine default_builder)
simplifying_builder_lem_example =
    simplifying_builder_lem machine machine-ApIntLaws default_builder
      (default_builder_lem machine true)

specialized_builder_lem_example : IsSound machine true (specialized_builder machine default_builder)
specialized_builder_lem_example =
    specialized_builder_lem machine machine-ApIntLaws true default_builder
      (default_builder_lem machine true)

chosen_builder_lem_example : IsSound machine false simplifying
chosen_builder_lem_example = chosen_builder_lem machine machine-ApIntLaws simplifying_kind
