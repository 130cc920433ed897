-- ===== src/Expr/Create/EqSteps.antt =====
-- klee/lib/Expr/Expr.cpp: the equations behind the rewritings of EqExpr_createPartialR.
use cgs.Prelude.{
  ℕ, zero, suc, ◌^◌, ◌==◌, ◌≤◌, ◌<◌, ◌≡◌, ◌≢◌, ◌∙◌, ◌↔◌, refl, sym, ap, false, arith, Bool-cases,
  ==_iff, ==_ne, inl, inr,
}
use cgs.Expr.Node.{Expr, constant, arithmetic, comparison, eq, add, sub, and, or, width}
use cgs.Expr.ApInt.{ApInt, ApIntLaws, Fits}
use cgs.Expr.Constant.{bool_value}
use cgs.Expr.Value.{eval, IsTyped}
use cgs.Expr.Fitting.{bool_value-Fits}
use cgs.Expr.Words.{plus, minus, minus_moved, minus_turned}
use cgs.Expr.Sound.{Implements}
use cgs.Expr.Regrouping.{value-Fits, sum_value, difference_value, zero-HasWidth}
use cgs.Expr.EqLaws.{bit_bound, ==_sym}

-- Two tests that stand for each other
pub same_test : (a b c d : ℕ) → (a ≡ b → c ≡ d) → (c ≡ d → a ≡ b) → (a == b) ≡ (c == d)
same_test a b c d f g = elim (Bool-cases (a == b)) [
  | inl p ↦ p ∙ sym ((==_iff c d).1 (f ((==_iff a b).0 p)))
  | inr p ↦ p ∙ sym (==_ne c d (λ e. cc (p, (==_iff a b).1 (g e))))
]

-- 0 == (0 == A) is A.
double_bit : (x : ℕ) → x < 2 → x ≡ bool_value (0 == bool_value (0 == x))
double_bit zero h = refl
double_bit (suc zero) h = refl
double_bit (suc (suc x)) h = absurd (omega arith)

module _ (ops : ApInt) (laws : ApIntLaws ops) where
  nor_bit :
      (x y : ℕ)
      → x < 2
      → y < 2
      → ops.arithmetic_op and 1 (bool_value (x == 0)) (bool_value (y == 0))
        ≡ bool_value (0 == ops.arithmetic_op or 1 x y)
  nor_bit zero y h k =
      laws.and_ones 1 (bool_value (y == 0)) (bool_value-Fits (y == 0))
      ∙ ap bool_value (==_sym y 0 ∙ ap (λ (z : ℕ). 0 == z) (sym (laws.or_zero 1 y k)))
  nor_bit (suc zero) y h k =
      laws.and_zero 1 (bool_value (y == 0)) (bool_value-Fits (y == 0))
      ∙ ap (λ (z : ℕ). bool_value (0 == z)) (sym (laws.or_ones 1 y k))
  nor_bit (suc (suc x)) y h k = absurd (omega arith)

  pub double_negation-Implements :
      (w c v d : ℕ) (r : Expr)
      → c ≡ 0
      → v ≡ 1
      → d ≡ 0
      → IsTyped (comparison eq (constant w c) (comparison eq (constant v d) r))
      → Implements ops r (comparison eq (constant w c) (comparison eq (constant v d) r))
  double_negation-Implements w c v d r hc hv hd (tc, (td, tr, e), e0) = (
    tr,
    sym e ∙ hv,
    λ contents fit.
        let x = eval ops contents r in
        let f : Fits v x = value-Fits ops laws contents v r fit (tr, sym e) in
        cc (
          double_bit x (bit_bound v x hv f),
          laws.eq_lem v d x,
          laws.eq_lem w c (bool_value (ops.compare_op eq v d x)),
          hc,
          hd,
        ),
  )

  -- c0 = c1 + b where c0 - c1 = b, and c0 = c1 - b where c1 - c0 = b
  pub eq_add-Implements :
      (w c v d : ℕ) (b : Expr)
      → IsTyped (comparison eq (constant w c) (arithmetic add (constant v d) b))
      → Implements ops
          (comparison eq (constant w (ops.arithmetic_op sub w c d)) b)
          (comparison eq (constant w c) (arithmetic add (constant v d) b))
  eq_add-Implements w c v d b (tc, (td, tb, e), e0) = (
    (laws.arithmetic_fits sub w c d tc (rw e0 td) refl, tb, e0 ∙ e),
    refl,
    λ contents fit.
        let y = eval ops contents b in
        let f : Fits w y = value-Fits ops laws contents w b fit (tb, sym e ∙ sym e0) in
        let g : Fits w d = rw e0 td in
        let move : (minus (2 ^ w) c d ≡ y) ↔ (c ≡ plus (2 ^ w) d y) =
          minus_moved (2 ^ w) c d y tc g f in
        cc (
          laws.eq_lem w (ops.arithmetic_op sub w c d) y,
          laws.sub_lem w c d,
          laws.eq_lem w c (eval ops contents (arithmetic add (constant v d) b)),
          sum_value ops laws contents w (constant v d) b (sym e0),
          same_test (minus (2 ^ w) c d) y c (plus (2 ^ w) d y) move.0 move.1,
        ),
  )

  pub eq_sub-Implements :
      (w c v d : ℕ) (b : Expr)
      → IsTyped (comparison eq (constant w c) (arithmetic sub (constant v d) b))
      → Implements ops
          (comparison eq (constant v (ops.arithmetic_op sub v d c)) b)
          (comparison eq (constant w c) (arithmetic sub (constant v d) b))
  eq_sub-Implements w c v d b (tc, (td, tb, e), e0) = (
    (laws.arithmetic_fits sub v d c td (rw (sym e0) tc) refl, tb, e),
    refl,
    λ contents fit.
        let y = eval ops contents b in
        let f : Fits v y = value-Fits ops laws contents v b fit (tb, sym e) in
        let g : Fits v c = rw (sym e0) tc in
        let move : (minus (2 ^ v) d c ≡ y) ↔ (c ≡ minus (2 ^ v) d y) =
          minus_turned (2 ^ v) c d y g td f in
        cc (
          laws.eq_lem v (ops.arithmetic_op sub v d c) y,
          laws.sub_lem v d c,
          laws.eq_lem w c (eval ops contents (arithmetic sub (constant v d) b)),
          difference_value ops laws contents v (constant v d) b refl,
          same_test (minus (2 ^ v) d c) y c (minus (2 ^ v) d y) move.0 move.1,
        ),
  )

  -- !(a or b) is !a and !b, where a negation is a comparison with 0.
  pub disjunction-Implements :
      (w c : ℕ) (a b : Expr)
      → w ≡ 1
      → c ≡ 0
      → IsTyped (comparison eq (constant w c) (arithmetic or a b))
      → Implements ops
          (arithmetic and
            (comparison eq a (constant (width a) 0))
            (comparison eq b (constant (width b) 0)))
          (comparison eq (constant w c) (arithmetic or a b))
  disjunction-Implements w c a b hw hc (tc, (ta, tb, e), e0) = (
    (
      (ta, (zero-HasWidth ops laws (width a)).0, refl),
      (tb, (zero-HasWidth ops laws (width b)).0, refl),
      refl,
    ),
    refl,
    λ contents fit.
        let x = eval ops contents a in
        let y = eval ops contents b in
        let one : width a ≡ 1 = sym e0 ∙ hw in
        let f : x < 2 =
          bit_bound (width a) x one (value-Fits ops laws contents (width a) a fit (ta, refl)) in
        let g : y < 2 =
          bit_bound (width a) y one (value-Fits ops laws contents (width a) b fit (tb, sym e)) in
        cc (
          one,
          hc,
          laws.eq_lem (width a) x 0,
          laws.eq_lem (width b) y 0,
          laws.eq_lem w c (ops.arithmetic_op or (width a) x y),
          nor_bit x y f g,
        ),
  )

  -- An extension has the value c where its operand has the truncated one, and that extends to c.
  module _ (ext : ℕ → ℕ → ℕ → ℕ)
      (trunc_ext : (w v a : ℕ) → Fits w a → w ≤ v → ops.zext_or_trunc v w (ext w v a) ≡ a) where
    pub extended_test :
        (u w x c : ℕ)
        → Fits u x
        → u ≤ w
        → c ≡ ext u w (ops.zext_or_trunc w u c)
        → (x == ops.zext_or_trunc w u c) ≡ (c == ext u w x)
    extended_test u w x c f h q =
        same_test x (ops.zext_or_trunc w u c) c (ext u w x) (λ e. cc (e, q))
          (λ e. cc (e, trunc_ext u w x f h))

    pub not_extended_test :
        (u w x c : ℕ)
        → Fits u x
        → u ≤ w
        → c ≢ ext u w (ops.zext_or_trunc w u c)
        → (c == ext u w x) ≡ false
    not_extended_test u w x c f h q = ==_ne c (ext u w x) (λ e. q (cc (e, trunc_ext u w x f h)))
