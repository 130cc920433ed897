-- ===== src/Expr/Create/Tests.antt =====
-- Runs of the functions create of klee/lib/Expr/Expr.cpp, and the theorems at concrete inputs.
use cgs.Prelude.{ℕ, ◌≡◌, refl, false, none, some, [], ◌∷◌, arith}
use cgs.Expr.Node.{
  Array, Expr, constant, read, zext, concat, extract, arithmetic, comparison, no_update, add, sub,
  udiv, and, eq, Expr-discrete, Array-discrete,
}
use cgs.Expr.Sound.{Builds}
use cgs.Expr.Machine.{machine}
use cgs.Expr.MachineLaws.{machine-ApIntLaws}
use cgs.Expr.Create.Eq.{eq_create, ne_create}
use cgs.Expr.Create.Sum.{sub_create}
use cgs.Expr.Create.Parts.{extract_create, concat_create}
use cgs.Expr.Create.PartLaws.{extract_create_lem}
use cgs.Expr.Create.Order.{slt_create, udiv_create}
use cgs.Expr.Create.Kinds.{zext_kind, an_expr, a_width, create_from_kind}
use cgs.Expr.Create.KindLaws.{narrow_zext_request, create_from_kind_lem}

abbrev bytes : Array
bytes = record { name = 0; size = 4; domain = 32; range = 8; constant_values = [] }

abbrev byte : ℕ → Expr
byte i = read bytes no_update (constant 32 i)

abbrev flags : Array
flags = record { name = 1; size = 4; domain = 32; range = 1; constant_values = [] }

abbrev flag : ℕ → Expr
flag i = read flags no_update (constant 32 i)

-- A division by the constant 0 stops for a constant, and is built for anything else.
zero_division_test :
    (udiv_create machine (constant 8 5) (constant 8 0) ≡ none)
    × (udiv_create machine (byte 0) (constant 8 0) ≡ some (arithmetic udiv (byte 0) (constant 8 0)))
zero_division_test = (refl, refl)

-- x - (7 - y) is 249 + (x + y), as in the builder.
sub_test :
    sub_create machine (byte 0) (arithmetic sub (constant 8 7) (byte 1))
    ≡ some (arithmetic add (constant 8 249) (arithmetic add (byte 0) (byte 1)))
unfolding Expr-discrete Array-discrete native.Mathlib.Decide.ℕ_discrete
sub_test = refl

-- 12 == (7 + x) is 5 == x.
eq_sum_test :
    eq_create machine (constant 8 12) (arithmetic add (constant 8 7) (byte 0))
    ≡ some (comparison eq (constant 8 5) (byte 0))
unfolding Expr-discrete Array-discrete native.Mathlib.Decide.ℕ_discrete
eq_sum_test = refl

-- 300 == zext x is false for a byte x.
eq_zext_test : eq_create machine (constant 16 300) (zext (byte 0) 16) ≡ some (constant 1 0)
eq_zext_test = refl

-- x != y is 0 == (x == y).
ne_test :
    ne_create machine (byte 0) (byte 1)
    ≡ some (comparison eq (constant 1 0) (comparison eq (byte 0) (byte 1)))
unfolding Expr-discrete Array-discrete native.Mathlib.Decide.ℕ_discrete
ne_test = refl

-- A signed order on bits
slt_test :
    slt_create machine (flag 0) (flag 1)
    ≡ some (arithmetic and (flag 0) (comparison eq (constant 1 0) (flag 1)))
unfolding Expr-discrete Array-discrete native.Mathlib.Decide.ℕ_discrete
slt_test = refl

-- The upper byte of two bytes side by side, and the same two bytes from parts of one word
abbrev word : Expr
word = zext (byte 0) 16

concat_test : concat_create machine (extract word 8 8) (extract word 0 8) ≡ some word
unfolding Expr-discrete Array-discrete native.Mathlib.Decide.ℕ_discrete
concat_test = refl

extract_test : extract_create machine (concat (byte 0) (byte 1)) 8 8 ≡ some (byte 0)
extract_test = refl

across_test :
    extract_create machine (concat (byte 0) (byte 1)) 4 8
    ≡ some (concat (extract (byte 0) 0 4) (extract (byte 1) 4 4))
unfolding Expr-discrete Array-discrete native.Mathlib.Decide.ℕ_discrete
across_test = refl

extract_create_lem_example :
    Builds machine false
      (extract_create machine (concat (byte 0) (byte 1)) 4 8)
      (extract (concat (byte 0) (byte 1)) 4 8)
extract_create_lem_example =
    extract_create_lem machine machine-ApIntLaws (concat (byte 0) (byte 1)) 4 8
      (((omega arith, refl, tt), (omega arith, refl, tt)), omega arith) (omega arith)

create_from_kind_lem_example :
    Builds machine false
      (create_from_kind machine zext_kind (an_expr (concat (byte 0) (byte 1)) ∷ a_width 12 ∷ []))
      (extract (concat (byte 0) (byte 1)) 0 12)
create_from_kind_lem_example =
    create_from_kind_lem machine machine-ApIntLaws zext_kind
      (an_expr (concat (byte 0) (byte 1)) ∷ a_width 12 ∷ [])
      (extract (concat (byte 0) (byte 1)) 0 12)
      (narrow_zext_request (concat (byte 0) (byte 1)) 12 (omega arith))
      (((omega arith, refl, tt), (omega arith, refl, tt)), omega arith) (omega arith)
