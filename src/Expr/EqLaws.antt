-- ===== src/Expr/EqLaws.antt =====
-- klee/lib/Expr/ExprBuilder.cpp: the method Eq of ConstantFoldingBuilder, and the same one of
-- SimplifyingBuilder.
use cgs.Prelude.{
  ℕ, suc, ◌-◌, ◌^◌, ◌==◌, ◌<◌, ◌≡◌, ◌∙◌, refl, sym, ap, Bool, true, false, Option, arith, ==_iff,
}
use cgs.Expr.Node.{
  Expr, Constness, a_constant, no_constant, constant, comparison, negation, eq, width,
  is_true_constant,
}
use cgs.Expr.ApInt.{ApInt, ApIntLaws, Fits}
use cgs.Expr.Constant.{bool_value}
use cgs.Expr.Value.{eval, IsTyped}
use cgs.Expr.Builder.{ExprBuilder}
use cgs.Expr.Sound.{Implements, Builds, Builds-trans, IsSound, if-Builds, some-Builds}
use cgs.Expr.Regrouping.{value-Fits}
use cgs.Expr.Folding.{eq_constant, commuting_by}

pub bit_bound : (w x : ℕ) → w ≡ 1 → Fits w x → x < 2
bit_bound w x h f = omega (arith, f, ap (λ (u : ℕ). 2 ^ u) h)

pub true_bit : (w c : ℕ) → w ≡ 1 → Fits w c → is_true_constant w c ≡ true → c ≡ 1
true_bit w c h f t = let b : c < 2 = bit_bound w c h f in ground arith

pub false_bit : (w c : ℕ) → w ≡ 1 → Fits w c → is_true_constant w c ≡ false → c ≡ 0
false_bit w c h f t = let b : c < 2 = bit_bound w c h f in ground arith

-- A bit is whether it is 1, and its complement whether it is 0.
same_bit : (x : ℕ) → x < 2 → x ≡ bool_value (1 == x)
same_bit x h = ground arith

other_bit : (x y : ℕ) → x < 2 → y ≡ 2 - suc x → y ≡ bool_value (0 == x)
other_bit x y h e = ground arith

pub ==_sym : (a b : ℕ) → (a == b) ≡ (b == a)
==_sym a b = ground arith

module _ (ops : ApInt) (laws : ApIntLaws ops) where
  -- true == X is X, and false == X is !X.
  pub true_eq-Implements :
      (w c : ℕ) (r : Expr)
      → w ≡ 1
      → is_true_constant w c ≡ true
      → IsTyped (comparison eq (constant w c) r)
      → Implements ops r (comparison eq (constant w c) r)
  true_eq-Implements w c r one q (hc, hr, e) = (
    hr,
    sym e ∙ one,
    λ contents fit.
        let x = eval ops contents r in
        let f : Fits w x = value-Fits ops laws contents w r fit (hr, sym e) in
        cc (laws.eq_lem w c x, same_bit x (bit_bound w x one f), true_bit w c one hc q),
  )

  false_eq-Implements :
      (w c : ℕ) (r : Expr)
      → w ≡ 1
      → is_true_constant w c ≡ false
      → IsTyped (comparison eq (constant w c) r)
      → Implements ops (negation r) (comparison eq (constant w c) r)
  false_eq-Implements w c r one q (hc, hr, e) = (
    hr,
    sym e ∙ one,
    λ contents fit.
        let x = eval ops contents r in
        let f : Fits w x = value-Fits ops laws contents w r fit (hr, sym e) in
        let two : 2 ^ w ≡ 2 = ap (λ (u : ℕ). 2 ^ u) one in
        let y : ops.complement w x ≡ 2 - suc x =
          laws.complement_lem w x f ∙ ap (λ (m : ℕ). m - suc x) two in
        cc (
          e,
          laws.eq_lem w c x,
          other_bit x (ops.complement w x) (bit_bound w x one f) y,
          false_bit w c one hc q,
        ),
  )

  pub swapped_eq-Implements :
      (l r : Expr)
      → IsTyped (comparison eq l r)
      → Implements ops (comparison eq r l) (comparison eq l r)
  swapped_eq-Implements l r (hl, hr, e) = (
    (hr, hl, sym e),
    refl,
    λ contents fit.
        let x = eval ops contents l in
        let y = eval ops contents r in
        ap bool_value (laws.eq_lem (width r) y x ∙ ==_sym y x ∙ sym (laws.eq_lem (width l) x y)),
  )

  module _ (b : Bool) (base : ExprBuilder) (sound : IsSound ops b base)
      (builder : ExprBuilder) where
    eq_constant_lem :
        (w c : ℕ) (r : Expr)
        → IsTyped (comparison eq (constant w c) r)
        → Builds ops b (eq_constant ops builder base w c r) (comparison eq (constant w c) r)
    eq_constant_lem w c r (hc, hr, e) =
        let t = comparison eq (constant w c) r in
        if-Builds ops b (w == 1) _ _ t
          (λ p.
            let one : w ≡ 1 = (==_iff w 1).0 p in
            if-Builds ops b (is_true_constant w c) _ _ t
              (λ q.
                some-Builds ops b r t (true_eq-Implements w c r one q (hc, hr, e)) (omega arith))
              (λ q.
                Builds-trans ops b _ (negation r) t (sound.not_lem r hr)
                  (false_eq-Implements w c r one q (hc, hr, e)) (omega arith)))
          (λ p. sound.comparison_lem eq (constant w c) r (hc, hr, e))

    -- Over what is done without a constant
    pub commuting_eq_lem :
        (g : Expr → Expr → Option Expr)
        → ((l r : Expr) → IsTyped (comparison eq l r) → Builds ops b (g l r) (comparison eq l r))
        → {l r : Expr} (cl : Constness l) (cr : Constness r) → IsTyped (comparison eq l r)
        → Builds ops b
            (commuting_by ops builder base (eq_constant ops builder base) g cl cr)
            (comparison eq l r)
    commuting_eq_lem g lem (a_constant w c) (a_constant v d) h = lem (constant w c) (constant v d) h
    commuting_eq_lem g lem (a_constant w c) (no_constant r z) h = eq_constant_lem w c r h
    commuting_eq_lem g lem (no_constant l z) (a_constant w c) h =
        let s = swapped_eq-Implements l (constant w c) h in
        Builds-trans ops b _ (comparison eq (constant w c) l) (comparison eq l (constant w c))
          (eq_constant_lem w c l s.0) s (omega arith)
    commuting_eq_lem g lem (no_constant l z) (no_constant r z') h = lem l r h
