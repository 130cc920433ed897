-- ===== src/Expr/Create/EqParts.antt =====
-- klee/lib/Expr/Expr.cpp: the cases of EqExpr_createPartialR, each of which builds the equation.
use cgs.Prelude.{
  ℕ, ◌==◌, ◌≤◌, ◌≡◌, ◌≢◌, ◌∙◌, ◌&&◌, refl, sym, ap, Bool, true, false, Option, some, arith, ==_iff,
  ==_self, true_ne_false, if◌then◌else◌,
}
use cgs.Expr.Node.{
  Constness, a_constant, no_constant, constness, Array, Expr, constant, comparison, eq, width,
  is_true_constant, Expr-discrete,
}
use cgs.Expr.ApInt.{ApInt, ApIntLaws, Fits}
use cgs.Expr.Constant.{bool_value}
use cgs.Expr.Value.{eval, IsTyped}
use cgs.Expr.Sound.{Implements-refl, Builds, Builds-trans_any, constant-Builds, if-Builds}
use cgs.Expr.Regrouping.{value-Fits}
use cgs.Expr.EqLaws.{true_eq-Implements, swapped_eq-Implements}
use cgs.Expr.Create.BitwiseLaws.{any-Builds, assert-Builds}
use cgs.Expr.Create.Eq.{eq_other_by, eq_other, eq_constant_by, double_negation}
use cgs.Expr.Create.EqSteps.{double_negation-Implements, extended_test, not_extended_test}

both : (a b : Bool) → (a && b) ≡ true → (a ≡ true) × (b ≡ true)
both true b h = (refl, h)
both false b h = absurd (true_ne_false (sym h))

ne_of_test : (a b : ℕ) → (a == b) ≡ false → a ≢ b
ne_of_test a b h e = cc (h, (==_iff a b).1 e)

module _ (ops : ApInt) (laws : ApIntLaws ops) where
  eq_other_by_lem :
      {l r : Expr} (d : Dec (l ≡ r))
      → IsTyped (comparison eq l r)
      → Builds ops false (eq_other_by d) (comparison eq l r)
  eq_other_by_lem {l = l} {r = r} (yes p) h =
      any-Builds ops laws (constant 1 1) (comparison eq l r) (
        omega arith,
        refl,
        λ contents fit.
            let x = eval ops contents l in
            cc (p, laws.eq_lem (width l) x (eval ops contents r), ==_self x),
      )
  eq_other_by_lem {l = l} {r = r} (no p) h =
      any-Builds ops laws (comparison eq l r) (comparison eq l r)
        (Implements-refl ops (comparison eq l r) h)

  pub eq_other_lem :
      (l r : Expr)
      → IsTyped (comparison eq l r)
      → Builds ops false (eq_other l r) (comparison eq l r)
  eq_other_lem l r h = eq_other_by_lem (Expr-discrete l r) h

  -- true == X is X.
  true_eq_lem :
      (w c : ℕ) (r : Expr)
      → (w == 1) ≡ true
      → is_true_constant w c ≡ true
      → IsTyped (comparison eq (constant w c) r)
      → Builds ops false (some r) (comparison eq (constant w c) r)
  true_eq_lem w c r p q h =
      any-Builds ops laws r (comparison eq (constant w c) r)
        (true_eq-Implements ops laws w c r ((==_iff w 1).0 p) q h)

  pub plain_lem :
      (w c : ℕ) (r : Expr)
      → IsTyped (comparison eq (constant w c) r)
      → Builds ops false
          (if (w == 1) && is_true_constant w c then some r else eq_other (constant w c) r)
          (comparison eq (constant w c) r)
  plain_lem w c r h =
      if-Builds ops false ((w == 1) && is_true_constant w c) _ _ (comparison eq (constant w c) r)
        (λ p. let q = both (w == 1) (is_true_constant w c) p in true_eq_lem w c r q.0 q.1 h)
        (λ p. eq_other_lem (constant w c) r h)

  -- Where the code tests the width first
  pub bool_lem :
      (w c : ℕ) (r : Expr) (m n : Option Expr)
      → IsTyped (comparison eq (constant w c) r)
      → ((w == 1) ≡ true
          → is_true_constant w c ≡ false
          → Builds ops false m (comparison eq (constant w c) r))
      → ((w == 1) ≡ false → Builds ops false n (comparison eq (constant w c) r))
      → Builds ops false
          (if w == 1 then (if is_true_constant w c then some r else m) else n)
          (comparison eq (constant w c) r)
  bool_lem w c r m n h f g =
      let t = comparison eq (constant w c) r in
      if-Builds ops false (w == 1) _ _ t
        (λ p.
          if-Builds ops false (is_true_constant w c) _ _ t (λ q. true_eq_lem w c r p q h)
            (λ q. f p q))
        g

  -- EqExpr::create of an expression and a constant, over createPartialR
  pub eq_constant_by_lem :
      {e : Expr} (k : Constness e) (w d : ℕ) (partial : Option Expr)
      → IsTyped (comparison eq e (constant w d))
      → Builds ops false partial (comparison eq (constant w d) e)
      → Builds ops false (eq_constant_by ops k w d partial) (comparison eq e (constant w d))
  eq_constant_by_lem (a_constant v x) w d partial h hp =
      assert-Builds ops laws v w _ (comparison eq (constant v x) (constant w d)) h.2 (
        constant-Builds ops laws false (comparison eq (constant v x) (constant w d)) _ h
          (λ contents. refl) (omega arith))
  eq_constant_by_lem (no_constant e z) w d partial h hp =
      assert-Builds ops laws (width e) w _ (comparison eq e (constant w d)) h.2 (
        Builds-trans_any ops false _ (comparison eq (constant w d) e)
          (comparison eq e (constant w d)) hp (swapped_eq-Implements ops laws e (constant w d) h))

  pub double_negation_lem :
      (w c : ℕ) {l : Expr} (d : Constness l) (r : Expr)
      → c ≡ 0
      → IsTyped (comparison eq (constant w c) (comparison eq l r))
      → Builds ops false
          (double_negation ops w c d r)
          (comparison eq (constant w c) (comparison eq l r))
  double_negation_lem w c (no_constant l z) r hc h =
      eq_other_lem (constant w c) (comparison eq l r) h
  double_negation_lem w c (a_constant v d) r hc h =
      let t = comparison eq (constant w c) (comparison eq (constant v d) r) in
      if-Builds ops false ((v == 1) && (d == 0)) _ _ t
        (λ p.
          let (q, s) = both (v == 1) (d == 0) p in
          any-Builds ops laws r t (
            double_negation-Implements ops laws w c v d r hc ((==_iff v 1).0 q) ((==_iff d 0).0 s)
              h))
        (λ p. eq_other_lem (constant w c) (comparison eq (constant v d) r) h)

  -- Both extensions: an equation of the operand, or none
  pub extension_lem :
      (ext : ℕ → ℕ → ℕ → ℕ)
      → ((w v a : ℕ) → Fits w a → w ≤ v → ops.zext_or_trunc v w (ext w v a) ≡ a)
      → (w c v : ℕ) (e t : Expr) (rest : Option Expr) → Fits w c
      → IsTyped e
      → width e ≤ v
      → w ≡ v
      → width t ≡ 1
      → ((contents : Array → ℕ → ℕ)
          → eval ops contents t ≡ bool_value (c == ext (width e) w (eval ops contents e)))
      → Builds ops false rest
          (comparison eq (constant (width e) (ops.zext_or_trunc w (width e) c)) e)
      → Builds ops false
          (if c == ext (width e) w (ops.zext_or_trunc w (width e) c)
            then eq_constant_by ops (constness e) (width e) (ops.zext_or_trunc w (width e) c) rest
            else some (constant 1 0))
          t
  extension_lem ext trunc_ext w c v e t rest fc he hu wv ht value hr =
      let u = width e in
      let trunc = ops.zext_or_trunc w u c in
      let h : IsTyped (comparison eq e (constant u trunc)) =
        (he, laws.zext_or_trunc_fits w u c fc, refl) in
      if-Builds ops false (c == ext u w trunc) _ _ t
        (λ p.
          Builds-trans_any ops false _ (comparison eq e (constant u trunc)) t
            (eq_constant_by_lem (constness e) u trunc rest h hr)
            (
              h,
              sym ht,
              λ contents fit.
                  let x = eval ops contents e in
                  let f : Fits u x = value-Fits ops laws contents u e fit (he, refl) in
                  ap bool_value (
                    laws.eq_lem u x trunc
                    ∙ extended_test ops laws ext trunc_ext u w x c f (rw wv hu)
                        ((==_iff c (ext u w trunc)).0 p))
                  ∙ sym (value contents),
            ))
        (λ p. any-Builds ops laws (constant 1 0) t (
          omega arith,
          sym ht,
          λ contents fit.
              let x = eval ops contents e in
              let f : Fits u x = value-Fits ops laws contents u e fit (he, refl) in
              sym (
                value contents
                ∙ ap bool_value (
                    not_extended_test ops laws ext trunc_ext u w x c f (rw wv hu)
                      (ne_of_test c (ext u w trunc) p))),
        ))
