-- ===== src/Expr/FoldingLaws.antt =====
-- klee/lib/Expr/ExprBuilder.cpp: that ConstantFoldingExprBuilder keeps what its base promises, and
-- that the calls between its methods come to an end.
use cgs.Prelude.{
  refl, false, ◌≡◌, ℕ, zero, suc, ◌+◌, ◌*◌, ◌%◌, ◌^◌, ◌≤◌, ◌<◌, ◌∙◌, sym, ap, inl, inr, true, arith,
}
use native.Mathlib.Nat.{mul-le-mul, mul_comm}
use cgs.Expr.Node.{
  is_division, IsSafe, plain-IsSafe, Expr, ArithmeticKind, CompareKind, constness, arithmetic,
  comparison, add, sub, mul, udiv, sdiv, urem, srem, and, or, xor, shl, lshr, ashr, eq, ne, ult,
  ule, ugt, uge, slt, sle, sgt, sge, size,
}
use cgs.Expr.ApInt.{ApInt, ApIntLaws}
use cgs.Expr.Value.{IsTyped}
use cgs.Expr.Builder.{ExprBuilder}
use cgs.Expr.Sound.{Builds, IsSound}
use cgs.Expr.Specialized.{specialized_builder}
use cgs.Expr.SpecializedLaws.{arithmetic_by_lem, specialized_builder_lem}
use cgs.Expr.FoldingSteps.{Below}
use cgs.Expr.AddLaws.{add_by_lem}
use cgs.Expr.SubLaws.{sub_by_lem}
use cgs.Expr.OperatorLaws.{
  commuting_by_lem, mul_constant_lem, and_constant_lem, or_constant_lem, xor_constant_lem,
}
use cgs.Expr.EqLaws.{commuting_eq_lem}
use cgs.Expr.Folding.{
  fold_arithmetic, fold_comparison, folding_helper, folding_at, fold_fuel, constant_folding_builder,
  mul_constant, and_constant, or_constant, xor_constant,
}

times-le : (a b c d : ℕ) → a ≤ b → c ≤ d → a * c ≤ b * d
times-le a b c d h k = mul-le-mul h k

-- The fuel covers each call that has fewer nodes, or no more and fewer on the left.
fewer-le : (t a m s : ℕ) → a ≤ t → t < m → fold_fuel t a ≤ m * suc m + s
fewer-le t a m s h k = omega (arith, times-le (suc t) m (suc (suc t)) (suc m) k (omega arith))

left-le : (t a m s : ℕ) → a < s → t ≤ m → fold_fuel t a ≤ m * suc m + s
left-le t a m s h k = omega (arith, times-le t m (suc t) (suc m) k (omega arith))

Below-le :
    (total left : ℕ) (l r : Expr)
    → Below total left l r
    → fold_fuel (size l + size r) (size l) ≤ total * suc total + left
Below-le total left l r (inl h) = fewer-le (size l + size r) (size l) total left (omega arith) h
Below-le total left l r (inr h) = left-le (size l + size r) (size l) total left h.1 h.0

module _ (ops : ApInt) (laws : ApIntLaws ops) (base : ExprBuilder)
    (sound : IsSound ops true base) where
  fold_arithmetic_lem :
      (builder : ExprBuilder) (k : ArithmeticKind) (l r : Expr)
      → ((k' : ArithmeticKind) (l' r' : Expr)
          → is_division k' ≡ false
          → IsTyped (arithmetic k' l' r')
          → Below (size l + size r) (size l) l' r'
          → Builds ops true (builder.build_arithmetic k' l' r') (arithmetic k' l' r'))
      → IsTyped (arithmetic k l r)
      → IsSafe k l r
      → Builds ops true (fold_arithmetic ops builder base k l r) (arithmetic k l r)
  fold_arithmetic_lem builder add l r rec h safe =
      add_by_lem ops laws base sound builder (size l + size r) (size l) rec (constness l)
        (constness r) h (omega arith) (omega arith)
  fold_arithmetic_lem builder sub l r rec h safe =
      sub_by_lem ops laws base sound builder (size l + size r) (size l) rec (constness l)
        (constness r) h (omega arith) (omega arith)
  fold_arithmetic_lem builder mul l r rec h safe =
      commuting_by_lem ops laws base sound builder mul (mul_constant ops builder base)
        (mul_constant_lem ops laws base sound builder)
        (λ w a b.
          laws.mul_lem w a b ∙ ap (λ (x : ℕ). x % 2 ^ w) (mul_comm a b) ∙ sym (laws.mul_lem w b a))
        refl (constness l) (constness r) h
  fold_arithmetic_lem builder and l r rec h safe =
      commuting_by_lem ops laws base sound builder and (and_constant ops builder base)
        (and_constant_lem ops laws base sound builder) laws.and_comm refl (constness l)
        (constness r) h
  fold_arithmetic_lem builder or l r rec h safe =
      commuting_by_lem ops laws base sound builder or (or_constant ops builder base)
        (or_constant_lem ops laws base sound builder) laws.or_comm refl (constness l) (constness r)
        h
  fold_arithmetic_lem builder xor l r rec h safe =
      commuting_by_lem ops laws base sound builder xor (xor_constant ops builder base)
        (xor_constant_lem ops laws base sound builder) laws.xor_comm refl (constness l)
        (constness r) h
  fold_arithmetic_lem builder udiv l r rec h safe = sound.arithmetic_lem udiv l r h safe
  fold_arithmetic_lem builder sdiv l r rec h safe = sound.arithmetic_lem sdiv l r h safe
  fold_arithmetic_lem builder urem l r rec h safe = sound.arithmetic_lem urem l r h safe
  fold_arithmetic_lem builder srem l r rec h safe = sound.arithmetic_lem srem l r h safe
  fold_arithmetic_lem builder shl l r rec h safe = sound.arithmetic_lem shl l r h safe
  fold_arithmetic_lem builder lshr l r rec h safe = sound.arithmetic_lem lshr l r h safe
  fold_arithmetic_lem builder ashr l r rec h safe = sound.arithmetic_lem ashr l r h safe

  fold_comparison_lem :
      (builder : ExprBuilder) (k : CompareKind) (l r : Expr)
      → IsTyped (comparison k l r)
      → Builds ops true (fold_comparison ops builder base k l r) (comparison k l r)
  fold_comparison_lem builder eq l r h =
      commuting_eq_lem ops laws true base sound builder (base.build_comparison eq)
        (sound.comparison_lem eq) (constness l) (constness r) h
  fold_comparison_lem builder ne l r h = sound.comparison_lem ne l r h
  fold_comparison_lem builder ult l r h = sound.comparison_lem ult l r h
  fold_comparison_lem builder ule l r h = sound.comparison_lem ule l r h
  fold_comparison_lem builder ugt l r h = sound.comparison_lem ugt l r h
  fold_comparison_lem builder uge l r h = sound.comparison_lem uge l r h
  fold_comparison_lem builder slt l r h = sound.comparison_lem slt l r h
  fold_comparison_lem builder sle l r h = sound.comparison_lem sle l r h
  fold_comparison_lem builder sgt l r h = sound.comparison_lem sgt l r h
  fold_comparison_lem builder sge l r h = sound.comparison_lem sge l r h

  -- With enough fuel
  folding_at_lem :
      (n : ℕ) (k : ArithmeticKind) (l r : Expr)
      → IsTyped (arithmetic k l r)
      → IsSafe k l r
      → fold_fuel (size l + size r) (size l) ≤ n
      → Builds ops true ((folding_at ops base n).build_arithmetic k l r) (arithmetic k l r)
  folding_at_lem zero k l r h safe enough = absurd (omega arith)
  folding_at_lem (suc n) k l r h safe enough =
      let builder = folding_at ops base n in
      arithmetic_by_lem ops laws true (folding_helper ops builder base) k (constness l)
        (constness r) h safe
        (fold_arithmetic_lem builder k l r
          (λ k' l' r' plain h' below.
            folding_at_lem n k' l' r' h' (plain-IsSafe k' l' r' plain)
              (omega (arith, Below-le (size l + size r) (size l) l' r' below)))
          h safe)

  -- All but the sums and differences, whose calls need fuel
  abbrev rest_helper : ExprBuilder
  rest_helper = record (folding_helper ops (folding_at ops base 0) base) {
    build_arithmetic = λ k l r. base.build_arithmetic k l r;
  }

  rest_sound : IsSound ops true rest_helper
  rest_sound = record {
    constant_lem = sound.constant_lem;
    not_optimized_lem = sound.not_optimized_lem;
    read_lem = sound.read_lem;
    select_lem = sound.select_lem;
    concat_lem = sound.concat_lem;
    extract_lem = sound.extract_lem;
    zext_lem = sound.zext_lem;
    sext_lem = sound.sext_lem;
    not_lem = sound.not_lem;
    arithmetic_lem = sound.arithmetic_lem;
    comparison_lem = λ k l r h. fold_comparison_lem (folding_at ops base 0) k l r h;
  }

  rest_lem : IsSound ops true (specialized_builder ops rest_helper)
  rest_lem = specialized_builder_lem ops laws true rest_helper rest_sound

  -- Over a base that is sound, each method of ConstantFoldingExprBuilder returns for typed
  -- operands of any width and size, but for divisions of a constant by the constant 0, which fail
  -- an assertion of APInt, although its methods call one another, and gives a typed expression
  -- with no more nodes than the one to build, and with its width and its value under all contents
  -- of the arrays, where APInt computes as documented.
  pub constant_folding_builder_lem : IsSound ops true (constant_folding_builder ops base)
  constant_folding_builder_lem = record {
    constant_lem = rest_lem.constant_lem;
    not_optimized_lem = rest_lem.not_optimized_lem;
    read_lem = rest_lem.read_lem;
    select_lem = rest_lem.select_lem;
    concat_lem = rest_lem.concat_lem;
    extract_lem = rest_lem.extract_lem;
    zext_lem = rest_lem.zext_lem;
    sext_lem = rest_lem.sext_lem;
    not_lem = rest_lem.not_lem;
    arithmetic_lem = λ k l r h safe.
        folding_at_lem (fold_fuel (size l + size r) (size l)) k l r h safe (omega arith);
    comparison_lem = rest_lem.comparison_lem;
  }
