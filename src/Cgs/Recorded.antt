-- ===== src/Cgs/Recorded.antt =====
-- klee/lib/Core/Executor.cpp: the recorded predicate is one that the observed values do not satisfy.
use cgs.Prelude.{ℕ, Bool, true, false}
use cgs.Cgs.State.{
  Predicate, icmp_eq, icmp_ne, icmp_sgt, icmp_ugt, icmp_slt, icmp_ult, icmp_sge, icmp_uge, icmp_sle,
  icmp_ule, invalid,
}
use cgs.Cgs.StoreValue.{compare_value}
use cgs.Cgs.Recording.{Operands, var_const, const_var, neither}

-- The opposite predicate.
abbrev pub negate : Predicate → Predicate
negate icmp_eq = icmp_ne
negate icmp_ne = icmp_eq
negate icmp_ugt = icmp_ule
negate icmp_ult = icmp_uge
negate icmp_uge = icmp_ult
negate icmp_ule = icmp_ugt
negate icmp_sgt = icmp_sle
negate icmp_slt = icmp_sge
negate icmp_sge = icmp_slt
negate icmp_sle = icmp_sgt
negate invalid = invalid

-- What the comparison of the program gives when its variable holds another value.
abbrev pub compared : Operands → Predicate → ℕ → ℕ → ℕ → Bool
compared var_const q c1 c2 w = compare_value q w c2
compared const_var q c1 c2 w = compare_value q c1 w
compared neither q c1 c2 w = false

-- The value of the variable.
abbrev pub observed : Operands → ℕ → ℕ → ℕ
observed var_const c1 c2 = c1
observed const_var c1 c2 = c2
observed neither c1 c2 = c1

-- An order, which is not the same when its sides are exchanged.
abbrev pub is_order : Predicate → Bool
is_order icmp_eq = false
is_order icmp_ne = false
is_order invalid = false
is_order q = true
