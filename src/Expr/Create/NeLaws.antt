-- ===== src/Expr/Create/NeLaws.antt =====
-- klee/lib/Expr/Expr.cpp: that create of Ne, createIsZero and createImplies build what they are
-- called for.
use cgs.Prelude.{◌==◌, ◌≡◌, refl, sym, not, Bool, true, false, arith}
use cgs.Expr.Node.{Expr, constant, arithmetic, comparison, eq, ne, or, width}
use cgs.Expr.ApInt.{ApInt, ApIntLaws, Fits}
use cgs.Expr.Constant.{bool_value}
use cgs.Expr.Value.{eval, IsTyped}
use cgs.Expr.Sound.{
  Implements, Implements-refl, arithmetic-Implements, Builds, Builds-trans_any, Builds->>=,
}
use cgs.Expr.Regrouping.{zero-HasWidth}
use cgs.Expr.Create.BitwiseLaws.{or_create_lem}
use cgs.Expr.Create.Eq.{eq_create, ne_create, create_is_zero, create_implies}
use cgs.Expr.Create.EqLaws.{eq_create_lem}

module _ (ops : ApInt) (laws : ApIntLaws ops) where
  flipped : (b : Bool) → bool_value (0 == bool_value b) ≡ bool_value (not b)
  flipped true = refl
  flipped false = refl

  -- That an expression of one bit is 0
  negated-Implements :
      (l r e : Expr)
      → IsTyped (comparison ne l r)
      → Implements ops e (comparison eq l r)
      → Implements ops (comparison eq (constant 1 0) e) (comparison ne l r)
  negated-Implements l r e h (te, we, ve) = (
    (omega arith, te, sym we),
    refl,
    λ contents fit.
        let w = width l in
        let x = eval ops contents l in
        let y = eval ops contents r in
        cc (
          ve contents fit,
          laws.eq_lem 1 0 (eval ops contents e),
          laws.eq_lem w x y,
          laws.ne_lem w x y,
          flipped (x == y),
        ),
  )

  pub ne_create_lem :
      (l r : Expr)
      → IsTyped (comparison ne l r)
      → Builds ops false (ne_create ops l r) (comparison ne l r)
  ne_create_lem l r h =
      Builds->>= ops false false (eq_create ops l r) _ (comparison eq l r) (comparison ne l r)
        (eq_create_lem ops laws l r h)
        (λ e he k.
          let rule = negated-Implements l r e h he in
          Builds-trans_any ops false _ (comparison eq (constant 1 0) e) (comparison ne l r)
            (eq_create_lem ops laws (constant 1 0) e rule.0) rule)

  pub create_is_zero_lem :
      (e : Expr)
      → IsTyped e
      → Builds ops false (create_is_zero ops e) (comparison eq e (constant (width e) 0))
  create_is_zero_lem e h =
      eq_create_lem ops laws e (constant (width e) 0)
        (h, (zero-HasWidth ops laws (width e)).0, refl)

  -- A conclusion of one bit, and a hypothesis of any width
  pub create_implies_lem :
      (hyp conc : Expr)
      → IsTyped hyp
      → IsTyped conc
      → width conc ≡ 1
      → Builds ops false
          (create_implies ops hyp conc)
          (arithmetic or (comparison eq hyp (constant (width hyp) 0)) conc)
  create_implies_lem hyp conc h k one =
      let zero_test = comparison eq hyp (constant (width hyp) 0) in
      let t = arithmetic or zero_test conc in
      Builds->>= ops false false (create_is_zero ops hyp) _ zero_test t (create_is_zero_lem hyp h)
        (λ e he s.
          let zero : Fits (width hyp) 0 = (zero-HasWidth ops laws (width hyp)).0 in
          let rule : Implements ops (arithmetic or e conc) t =
            arithmetic-Implements ops or e zero_test conc conc he (Implements-refl ops conc k)
              ((h, zero, refl), k, sym one) in
          Builds-trans_any ops false _ (arithmetic or e conc) t
            (or_create_lem ops laws e conc rule.0) rule)
