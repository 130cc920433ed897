-- ===== src/Expr/SimplifyingLaws.antt =====
-- klee/lib/Expr/ExprBuilder.cpp: that SimplifyingExprBuilder keeps what its base promises, except that
-- it may give more nodes.
use cgs.Prelude.{ℕ, suc, ◌+◌, ◌<◌, ◌≡◌, refl, true, false, Option, arith}
use cgs.Expr.Node.{
  constness, Expr, CompareKind, comparison, negation, eq, ne, ult, ule, ugt, uge, slt, sle, sgt,
  sge, size, Expr-discrete,
}
use cgs.Expr.ApInt.{ApInt, ApIntLaws}
use cgs.Expr.Value.{IsTyped}
use cgs.Expr.Builder.{ExprBuilder}
use cgs.Expr.Sound.{
  Implements, Implements-trans, Builds, Builds-trans_any, Builds-any, Builds->>=, IsSound,
  IsSound-any,
}
use cgs.Expr.Specialized.{specialized_builder}
use cgs.Expr.SpecializedLaws.{comparison_by_lem, specialized_builder_lem}
use cgs.Expr.EqLaws.{commuting_eq_lem}
use cgs.Expr.SimplifyingSteps.{
  negation-Implements, ne-Implements, flipped-Implements, simplify_eq_by_lem, eq_at_lem, not_at_lem,
}
use cgs.Expr.Simplifying.{
  simplify_eq, simplify_comparison, simplifying_helper, simplifying_at, simplifying_builder,
}

module _ (ops : ApInt) (laws : ApIntLaws ops) (base : ExprBuilder)
    (sound : IsSound ops true base) where
  flipped_lem :
      (n : ℕ) (j k : CompareKind) (l r : Expr)
      → ((w a b : ℕ) → ops.compare_op k w a b ≡ ops.compare_op j w b a)
      → IsTyped (comparison k l r)
      → ((l' r' : Expr)
          → simplify_comparison ops (simplifying_at ops base n) base j l' r'
            ≡ base.build_comparison j l' r')
      → Builds ops false
          ((simplifying_at ops base (suc n)).build_comparison j r l)
          (comparison k l r)
  flipped_lem n j k l r flip (hl, hr, e) same =
      let impl : Implements ops (comparison j r l) (comparison k l r) =
        flipped-Implements ops laws j k l r flip (hl, hr, e) in
      Builds-trans_any ops true _ (comparison j r l) (comparison k l r)
        (comparison_by_lem ops laws true (simplifying_helper ops (simplifying_at ops base n) base) j
          (constness r) (constness l) impl.0 (rw (same r l) (sound.comparison_lem j r l impl.0)))
        impl

  simplify_comparison_lem :
      (n : ℕ) (k : CompareKind) (l r : Expr)
      → IsTyped (comparison k l r)
      → suc (size l + size r) < suc n
      → Builds ops false
          (simplify_comparison ops (simplifying_at ops base (suc n)) base k l r)
          (comparison k l r)
  simplify_comparison_lem n eq l r h hs = Builds-any ops true _ (comparison eq l r) (
      commuting_eq_lem ops laws true base sound (simplifying_at ops base (suc n))
        (simplify_eq ops (simplifying_at ops base (suc n)) base)
        (λ l' r' h'.
          simplify_eq_by_lem ops laws base sound (simplifying_at ops base (suc n))
            (Expr-discrete l' r') h')
        (constness l) (constness r) h)
  simplify_comparison_lem n ne l r h hs =
      Builds->>= ops true false _ _ (comparison eq l r) (comparison ne l r)
        (eq_at_lem ops laws base sound n l r h)
        (λ e he se.
          Builds-trans_any ops false _ (negation e) (comparison ne l r)
            (not_at_lem ops laws base sound (suc n) e he.0 (omega arith))
            (Implements-trans ops (negation e) (negation (comparison eq l r)) (comparison ne l r)
              (negation-Implements ops laws e (comparison eq l r) he)
              (ne-Implements ops laws l r h)))
  simplify_comparison_lem n ugt l r h hs = flipped_lem n ult ugt l r laws.ugt_lem h (λ l' r'. refl)
  simplify_comparison_lem n uge l r h hs = flipped_lem n ule uge l r laws.uge_lem h (λ l' r'. refl)
  simplify_comparison_lem n sgt l r h hs = flipped_lem n slt sgt l r laws.sgt_lem h (λ l' r'. refl)
  simplify_comparison_lem n sge l r h hs = flipped_lem n sle sge l r laws.sge_lem h (λ l' r'. refl)
  simplify_comparison_lem n ult l r h hs =
      Builds-any ops true _ (comparison ult l r) (sound.comparison_lem ult l r h)
  simplify_comparison_lem n ule l r h hs =
      Builds-any ops true _ (comparison ule l r) (sound.comparison_lem ule l r h)
  simplify_comparison_lem n slt l r h hs =
      Builds-any ops true _ (comparison slt l r) (sound.comparison_lem slt l r h)
  simplify_comparison_lem n sle l r h hs =
      Builds-any ops true _ (comparison sle l r) (sound.comparison_lem sle l r h)

  -- All but Not and the comparisons, whose calls need fuel; Read calls Eq.
  abbrev rest_comparison : CompareKind → Expr → Expr → Option Expr
  rest_comparison eq l r = simplify_comparison ops (simplifying_at ops base 0) base eq l r
  rest_comparison k l r = base.build_comparison k l r

  abbrev rest_helper : ExprBuilder
  rest_helper = record (simplifying_helper ops (simplifying_at ops base 0) base) {
    build_not = λ e. base.build_not e;
    build_comparison = rest_comparison;
  }

  any_sound : IsSound ops false base
  any_sound = IsSound-any ops base sound

  rest_comparison_lem :
      (k : CompareKind) (l r : Expr)
      → IsTyped (comparison k l r)
      → Builds ops false (rest_comparison k l r) (comparison k l r)
  rest_comparison_lem eq l r h =
      let builder = simplifying_at ops base 0 in
      Builds-any ops true _ (comparison eq l r) (
        commuting_eq_lem ops laws true base sound builder (simplify_eq ops builder base)
          (λ l' r' h'. simplify_eq_by_lem ops laws base sound builder (Expr-discrete l' r') h')
          (constness l) (constness r) h)
  rest_comparison_lem ne l r h = any_sound.comparison_lem ne l r h
  rest_comparison_lem ult l r h = any_sound.comparison_lem ult l r h
  rest_comparison_lem ule l r h = any_sound.comparison_lem ule l r h
  rest_comparison_lem ugt l r h = any_sound.comparison_lem ugt l r h
  rest_comparison_lem uge l r h = any_sound.comparison_lem uge l r h
  rest_comparison_lem slt l r h = any_sound.comparison_lem slt l r h
  rest_comparison_lem sle l r h = any_sound.comparison_lem sle l r h
  rest_comparison_lem sgt l r h = any_sound.comparison_lem sgt l r h
  rest_comparison_lem sge l r h = any_sound.comparison_lem sge l r h

  rest_sound : IsSound ops false rest_helper
  rest_sound = record {
    constant_lem = any_sound.constant_lem;
    not_optimized_lem = any_sound.not_optimized_lem;
    read_lem = any_sound.read_lem;
    select_lem = any_sound.select_lem;
    concat_lem = any_sound.concat_lem;
    extract_lem = any_sound.extract_lem;
    zext_lem = any_sound.zext_lem;
    sext_lem = any_sound.sext_lem;
    not_lem = any_sound.not_lem;
    arithmetic_lem = any_sound.arithmetic_lem;
    comparison_lem = rest_comparison_lem;
  }

  rest_lem : IsSound ops false (specialized_builder ops rest_helper)
  rest_lem = specialized_builder_lem ops laws false rest_helper rest_sound

  -- Over a sound base each method of SimplifyingExprBuilder returns for typed operands, but for
  -- divisions of a constant by the constant 0, which fail an assertion of APInt, and gives a typed
  -- expression with the width and the value of the one to build: for disjunctions below a
  -- negation, equal operands, comparisons that it turns round, and all the others.
  pub simplifying_builder_lem : IsSound ops false (simplifying_builder ops base)
  simplifying_builder_lem = record {
    constant_lem = rest_lem.constant_lem;
    not_optimized_lem = rest_lem.not_optimized_lem;
    read_lem = rest_lem.read_lem;
    select_lem = rest_lem.select_lem;
    concat_lem = rest_lem.concat_lem;
    extract_lem = rest_lem.extract_lem;
    zext_lem = rest_lem.zext_lem;
    sext_lem = rest_lem.sext_lem;
    not_lem = λ e h. not_at_lem ops laws base sound (suc (size e)) e h (omega arith);
    arithmetic_lem = rest_lem.arithmetic_lem;
    comparison_lem = λ k l r h.
        let n = suc (size l + size r) in
        comparison_by_lem ops laws false
          (simplifying_helper ops (simplifying_at ops base (suc n)) base) k (constness l)
          (constness r) h (simplify_comparison_lem n k l r h (omega arith));
  }
