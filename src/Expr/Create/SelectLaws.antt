-- ===== src/Expr/Create/SelectLaws.antt =====
-- klee/lib/Expr/Expr.cpp: that create of Select builds what it is called for.
use cgs.Prelude.{ℕ, ◌==◌, ◌≡◌, ◌∙◌, refl, sym, ap, Bool, true, false, ==_iff, if◌then◌else◌}
use cgs.Expr.Node.{
  Constness, a_constant, no_constant, constness, Expr, constant, select, and, or, width,
  is_true_constant, Expr-discrete,
}
use cgs.Expr.ApInt.{ApInt, ApIntLaws}
use cgs.Expr.Value.{eval, IsTyped}
use cgs.Expr.Sound.{Builds, if-Builds}
use cgs.Expr.EqLaws.{true_bit, false_bit}
use cgs.Expr.Create.Bitwise.{and_create, or_create}
use cgs.Expr.Create.BitwiseLaws.{any-Builds, same-any, assert-Builds, and_create_lem, or_create_lem}
use cgs.Expr.Create.OrderSteps.{and_lem, or_lem, not_and_lem, not_or_lem, joined_lem, left_test_lem}
use cgs.Expr.Create.Select.{select_bit, select_same_by, select_on, select_create}

same_branch : {x y : ℕ} (b : Bool) → x ≡ y → x ≡ (if b then y else x)
same_branch true p = p
same_branch false p = refl

module _ (ops : ApInt) (laws : ApIntLaws ops) where
  select_bit_lem :
      (c : Expr) {t f : Expr} (x : Constness t) (y : Constness f)
      → width t ≡ 1
      → IsTyped (select c t f)
      → Builds ops false (select_bit ops c x y) (select c t f)
  select_bit_lem c {f = f} (a_constant w v) y one (hc, ht, hf, ec, e) =
      let t = select c (constant w v) f in
      let h : IsTyped t = (hc, ht, hf, ec, e) in
      let pair : IsTyped c × IsTyped f × (width c ≡ width f) = (hc, hf, ec ∙ sym one ∙ e) in
      if-Builds ops false (is_true_constant w v) _ _ t
        (λ p.
          let k = λ (a b : ℕ). if a == 0 then b else 1 in
          joined_lem ops laws or (or_create ops) (or_create_lem ops laws) k c f t ec pair h one
            (λ contents. cc (true_bit w v one ht p)) (or_lem ops laws k (refl, refl, refl, refl)))
        (λ p.
          let k = λ (a b : ℕ). if a == 0 then b else 0 in
          left_test_lem ops laws and (and_create ops) (and_create_lem ops laws) k c f t ec pair h
            one (λ contents. cc (false_bit w v one ht p))
            (not_and_lem ops laws k (refl, refl, refl, refl)))
  select_bit_lem c (no_constant s z) (a_constant w v) one (hc, ht, hf, ec, e) =
      let t = select c s (constant w v) in
      let h : IsTyped t = (hc, ht, hf, ec, e) in
      let pair : IsTyped c × IsTyped s × (width c ≡ width s) = (hc, ht, ec ∙ sym one) in
      let w_one : w ≡ 1 = sym e ∙ one in
      if-Builds ops false (is_true_constant w v) _ _ t
        (λ p.
          let k = λ (a b : ℕ). if a == 0 then 1 else b in
          left_test_lem ops laws or (or_create ops) (or_create_lem ops laws) k c s t ec pair h one
            (λ contents. cc (true_bit w v w_one hf p))
            (not_or_lem ops laws k (refl, refl, refl, refl)))
        (λ p.
          let k = λ (a b : ℕ). if a == 0 then 0 else b in
          joined_lem ops laws and (and_create ops) (and_create_lem ops laws) k c s t ec pair h one
            (λ contents. cc (false_bit w v w_one hf p))
            (and_lem ops laws k (refl, refl, refl, refl)))
  select_bit_lem c (no_constant s z) (no_constant f i) one h = same-any ops laws (select c s f) h

  select_same_lem :
      (c : Expr) {t f : Expr} (d : Dec (t ≡ f))
      → IsTyped (select c t f)
      → Builds ops false (select_same_by ops c d) (select c t f)
  select_same_lem c {t = t} {f = f} (yes p) h =
      any-Builds ops laws t (select c t f) (
        h.1,
        refl,
        λ contents fit. same_branch (eval ops contents c == 0) (ap (eval ops contents) p),
      )
  select_same_lem c {t = t} {f = f} (no p) h =
      if-Builds ops false (width t == 1) _ _ (select c t f)
        (λ q. select_bit_lem c (constness t) (constness f) ((==_iff (width t) 1).0 q) h)
        (λ q. same-any ops laws (select c t f) h)

  select_on_lem :
      {c : Expr} (x : Constness c) (t f : Expr)
      → IsTyped (select c t f)
      → Builds ops false (select_on ops x t f) (select c t f)
  select_on_lem (a_constant w v) t f (hc, ht, hf, ec, e) =
      if-Builds ops false (is_true_constant w v) _ _ (select (constant w v) t f)
        (λ p.
          any-Builds ops laws t (select (constant w v) t f)
            (ht, refl, λ contents fit. cc (true_bit w v ec hc p)))
        (λ p.
          any-Builds ops laws f (select (constant w v) t f)
            (hf, sym e, λ contents fit. cc (false_bit w v ec hc p)))
  select_on_lem (no_constant c z) t f h = select_same_lem c (Expr-discrete t f) h

  pub select_create_lem :
      (c t f : Expr)
      → IsTyped (select c t f)
      → Builds ops false (select_create ops c t f) (select c t f)
  select_create_lem c t f (hc, ht, hf, ec, e) =
      assert-Builds ops laws (width c) 1 _ (select c t f) ec (
        assert-Builds ops laws (width t) (width f) _ (select c t f) e
          (select_on_lem (constness c) t f (hc, ht, hf, ec, e)))
