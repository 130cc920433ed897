-- ===== src/Cgs/Recording.antt =====
-- klee/lib/Core/Executor.cpp: what executeInstruction records of a concrete branch that it finds for
-- the first time, the predicate of the side that is not covered yet among it.
use Prim.Native.String.{String}
use cgs.Prelude.{ℕ, not, Option, none, some, ◌==◌, if◌then◌else◌}
use cgs.Cgs.State.{
  Predicate, icmp_eq, icmp_ne, icmp_sgt, icmp_ugt, icmp_slt, icmp_ult, icmp_sge, icmp_uge, icmp_sle,
  icmp_ule, invalid, BdDep,
}
use cgs.Cgs.StoreValue.{signed_lt}

-- Which operands of the comparison are constants of the program.
pub data Operands : Type 0 where
  var_const const_var neither : Operands

-- The uncovered predicate of `V pred C`, where `c1` is the value of V; the old one is kept for a
-- predicate that is none of an integer comparison.
unfoldable pub record_forward : Predicate → ℕ → ℕ → Predicate → Predicate
record_forward icmp_eq c1 c2 old = if c1 == c2 then icmp_ne else icmp_eq
record_forward icmp_ne c1 c2 old = if not (c1 == c2) then icmp_eq else icmp_ne
record_forward icmp_ugt c1 c2 old = if signed_lt c2 c1 then icmp_ule else icmp_ugt
record_forward icmp_ult c1 c2 old = if signed_lt c1 c2 then icmp_uge else icmp_ult
record_forward icmp_uge c1 c2 old = if not (signed_lt c1 c2) then icmp_ult else icmp_uge
record_forward icmp_ule c1 c2 old = if not (signed_lt c2 c1) then icmp_ugt else icmp_ule
record_forward icmp_sgt c1 c2 old = if signed_lt c2 c1 then icmp_sle else icmp_sgt
record_forward icmp_slt c1 c2 old = if signed_lt c1 c2 then icmp_sge else icmp_slt
record_forward icmp_sge c1 c2 old = if not (signed_lt c1 c2) then icmp_slt else icmp_sge
record_forward icmp_sle c1 c2 old = if not (signed_lt c2 c1) then icmp_sgt else icmp_sle
record_forward invalid c1 c2 old = old

-- The uncovered predicate of `C pred V`, and the predicate turned round.
unfoldable pub record_reversed : Predicate → ℕ → ℕ → Predicate → Predicate × Predicate
record_reversed icmp_eq c1 c2 old = (if c2 == c1 then icmp_ne else icmp_eq, icmp_eq)
record_reversed icmp_ne c1 c2 old = (if not (c2 == c1) then icmp_eq else icmp_ne, icmp_ne)
record_reversed icmp_ugt c1 c2 old = (if signed_lt c2 c1 then icmp_uge else icmp_ult, icmp_ult)
record_reversed icmp_ult c1 c2 old = (if signed_lt c1 c2 then icmp_ule else icmp_ugt, icmp_ugt)
record_reversed icmp_uge c1 c2 old =
    (if not (signed_lt c1 c2) then icmp_ugt else icmp_ule, icmp_ule)
record_reversed icmp_ule c1 c2 old =
    (if not (signed_lt c2 c1) then icmp_ult else icmp_uge, icmp_uge)
record_reversed icmp_sgt c1 c2 old = (if signed_lt c2 c1 then icmp_sge else icmp_slt, icmp_slt)
record_reversed icmp_slt c1 c2 old = (if signed_lt c1 c2 then icmp_sle else icmp_sgt, icmp_sgt)
record_reversed icmp_sge c1 c2 old =
    (if not (signed_lt c1 c2) then icmp_sgt else icmp_sle, icmp_sle)
record_reversed icmp_sle c1 c2 old =
    (if not (signed_lt c2 c1) then icmp_slt else icmp_sge, icmp_sge)
record_reversed invalid c1 c2 old = (old, invalid)

-- The fields of the dependency that the comparison decides; `none` is a failed assertion.
unfoldable pub record_operands : Operands → ℕ → ℕ → BdDep → Option BdDep
record_operands var_const c1 c2 d = some (record d {
  var = c1;
  constant = c2;
  un_covered_pred = record_forward d.pred c1 c2 d.un_covered_pred;
})
record_operands const_var c1 c2 d =
    let (uncovered, turned) = record_reversed d.pred c1 c2 d.un_covered_pred in
    some (record d { var = c2; constant = c1; un_covered_pred = uncovered; pred = turned })
record_operands neither c1 c2 d = none

-- The arithmetic operation that the search through the block comes upon, if it does.
unfoldable pub record_arith : Option (String × ℕ) → BdDep → BdDep
record_arith none d = d
record_arith (some (op, a)) d = record d { arith_op = op; arith_var = a }
