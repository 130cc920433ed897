-- ===== src/Expr/SimplifyingSteps.antt =====
-- klee/lib/Expr/ExprBuilder.cpp: the equations behind the rewritings of SimplifyingBuilder, and its
-- methods Eq and Not.
use cgs.Prelude.{ℕ, zero, suc, ◌-◌, ◌<◌, ◌≡◌, refl, sym, Bool, true, false, not, arith, ==_self}
use cgs.Expr.Node.{
  constness, not_operand, OrOperand, an_or, no_or, or_operand, Expr, CompareKind, arithmetic,
  comparison, negation, and, or, eq, ne, width, size, Expr-discrete,
}
use cgs.Expr.ApInt.{ApInt, ApIntLaws, Fits}
use cgs.Expr.Constant.{bool_value}
use cgs.Expr.Value.{eval, IsTyped}
use cgs.Expr.Fitting.{bool_value-Fits, eval-Fits}
use cgs.Expr.Builder.{ExprBuilder}
use cgs.Expr.Sound.{
  Implements, Implements-trans, arithmetic-Implements, Builds, Builds-trans_any, Builds-any,
  Builds->>=, IsSound, some-Builds,
}
use cgs.Expr.SpecializedLaws.{size-positive, arithmetic_by_lem, comparison_by_lem, not_by_lem}
use cgs.Expr.EqLaws.{commuting_eq_lem}
use cgs.Expr.Simplifying.{
  true_expr, simplify_eq_by, simplify_eq, simplify_not, simplifying_helper, simplifying_at,
}

not_bit : (b : Bool) (c : ℕ) → c ≡ 2 - suc (bool_value b) → c ≡ bool_value (not b)
not_bit true c h = omega arith
not_bit false c h = omega arith

module _ (ops : ApInt) (laws : ApIntLaws ops) where
  pub negation-Implements :
      (d e : Expr) → Implements ops d e → Implements ops (negation d) (negation e)
  negation-Implements d e (hd, wd, vd) = (hd, wd, λ contents fit. cc (wd, vd contents fit))

  -- !(a or b) is !a and !b.
  de_morgan-Implements :
      (a b : Expr)
      → IsTyped (arithmetic or a b)
      → Implements ops (arithmetic and (negation a) (negation b)) (negation (arithmetic or a b))
  de_morgan-Implements a b (ha, hb, e) = (
    (ha, hb, e),
    refl,
    λ contents fit.
        let x = eval ops contents a in
        let y = eval ops contents b in
        let f : Fits (width a) x = eval-Fits ops laws contents fit a ha in
        let g : Fits (width a) y = rw e (eval-Fits ops laws contents fit b hb) in
        cc (e, laws.de_morgan (width a) x y f g),
  )

  -- X != Y is !(X == Y).
  pub ne-Implements :
      (l r : Expr)
      → IsTyped (comparison eq l r)
      → Implements ops (negation (comparison eq l r)) (comparison ne l r)
  ne-Implements l r h = (
    h,
    refl,
    λ contents fit.
        let x = eval ops contents l in
        let y = eval ops contents r in
        let b = ops.compare_op eq (width l) x y in
        cc (
          not_bit b _ (laws.complement_lem 1 (bool_value b) (bool_value-Fits b)),
          laws.eq_lem (width l) x y,
          laws.ne_lem (width l) x y,
        ),
  )

  -- X > Y is Y < X, and so on.
  pub flipped-Implements :
      (j k : CompareKind) (l r : Expr)
      → ((w a b : ℕ) → ops.compare_op k w a b ≡ ops.compare_op j w b a)
      → IsTyped (comparison k l r)
      → Implements ops (comparison j r l) (comparison k l r)
  flipped-Implements j k l r flip (hl, hr, e) = (
    (hr, hl, sym e),
    refl,
    λ contents fit. cc (e, flip (width l) (eval ops contents l) (eval ops contents r)),
  )

  module _ (base : ExprBuilder) (sound : IsSound ops true base) where
    pub simplify_eq_by_lem :
        (builder : ExprBuilder) {l r : Expr} (d : Dec (l ≡ r))
        → IsTyped (comparison eq l r)
        → Builds ops true (simplify_eq_by ops builder base d) (comparison eq l r)
    simplify_eq_by_lem builder {l = l} {r = r} (yes p) h =
        some-Builds ops true true_expr (comparison eq l r)
          (
            omega arith,
            refl,
            λ contents fit.
                let x = eval ops contents l in
                cc (p, laws.eq_lem (width l) x (eval ops contents r), ==_self x),
          )
          (omega arith)
    simplify_eq_by_lem builder {l = l} {r = r} (no p) h = sound.comparison_lem eq l r h

    pub eq_at_lem :
        (n : ℕ) (l r : Expr)
        → IsTyped (comparison eq l r)
        → Builds ops true
            ((simplifying_at ops base (suc n)).build_comparison eq l r)
            (comparison eq l r)
    eq_at_lem n l r h =
        let builder = simplifying_at ops base n in
        comparison_by_lem ops laws true (simplifying_helper ops builder base) eq (constness l)
          (constness r) h
          (commuting_eq_lem ops laws true base sound builder (simplify_eq ops builder base)
            (λ l' r' h'. simplify_eq_by_lem builder (Expr-discrete l' r') h') (constness l)
            (constness r) h)

    and_at_lem :
        (n : ℕ) (l r : Expr)
        → IsTyped (arithmetic and l r)
        → Builds ops true
            ((simplifying_at ops base (suc n)).build_arithmetic and l r)
            (arithmetic and l r)
    and_at_lem n l r h =
        arithmetic_by_lem ops laws true (simplifying_helper ops (simplifying_at ops base n) base)
          and (constness l) (constness r) h refl (sound.arithmetic_lem and l r h refl)

    simplify_not_lem :
        (n : ℕ) {e : Expr} (o : OrOperand e)
        → ((e' : Expr)
            → IsTyped e'
            → size e' < suc n
            → Builds ops false ((simplifying_at ops base (suc n)).build_not e') (negation e'))
        → IsTyped e
        → size e < suc (suc n)
        → Builds ops false (simplify_not ops (simplifying_at ops base (suc n)) base o) (negation e)
    simplify_not_lem n (an_or a b) rec (ha, hb, e) hs =
        let t = negation (arithmetic or a b) in
        Builds->>= ops false false _ _ (negation a) t (rec a ha (omega (arith, size-positive b)))
          (λ x hx sx.
            Builds->>= ops false false _ _ (negation b) t
              (rec b hb (omega (arith, size-positive a)))
              (λ y hy sy.
                let impl : Implements ops (arithmetic and x y)
                    (arithmetic and (negation a) (negation b)) =
                  arithmetic-Implements ops and x (negation a) y (negation b) hx hy (ha, hb, e) in
                Builds-trans_any ops true _ (arithmetic and x y) t (and_at_lem n x y impl.0) (
                  Implements-trans ops (arithmetic and x y)
                    (arithmetic and (negation a) (negation b)) t impl
                    (de_morgan-Implements a b (ha, hb, e)))))
    simplify_not_lem n (no_or e) rec h hs = Builds-any ops true _ (negation e) (sound.not_lem e h)

    pub not_at_lem :
        (n : ℕ) (e : Expr)
        → IsTyped e
        → size e < n
        → Builds ops false ((simplifying_at ops base n).build_not e) (negation e)
    not_at_lem zero e h hs = absurd (omega arith)
    not_at_lem (suc zero) e h hs = absurd (omega (arith, size-positive e))
    not_at_lem (suc (suc n)) e h hs =
        not_by_lem ops laws false (simplifying_helper ops (simplifying_at ops base (suc n)) base)
          (not_operand e) h (simplify_not_lem n (or_operand e) (not_at_lem (suc n)) h hs)
