-- ===== src/Expr/Create/EqLaws.antt =====
-- klee/lib/Expr/Expr.cpp: that create of Eq and Ne, createIsZero and createImplies build what they are
-- called for.
use cgs.Prelude.{ℕ, ◌≡◌, refl, sym, false, Option, ◌>>=◌, arith, ==_iff}
use cgs.Expr.Node.{
  Constness, a_constant, no_constant, constness, Expr, constant, zext, sext, arithmetic, comparison,
  eq, add, sub, and, or, width,
}
use cgs.Expr.ApInt.{ApInt, ApIntLaws, Fits}
use cgs.Expr.Value.{eval, IsTyped}
use cgs.Expr.Sound.{
  Implements, Implements-trans, arithmetic-Implements, Builds, Builds-trans_any, Builds->>=,
  constant-Builds,
}
use cgs.Expr.Regrouping.{zero-HasWidth}
use cgs.Expr.EqLaws.{swapped_eq-Implements, false_bit}
use cgs.Expr.Create.Bitwise.{and_create}
use cgs.Expr.Create.BitwiseLaws.{assert-Builds, and_create_lem}
use cgs.Expr.Create.Eq.{
  EqOperand, an_eq, a_disjunction, a_sext, a_zext, an_add, a_sub, another_operand, eq_operand,
  eq_partial_by, eq_by, eq_create,
}
use cgs.Expr.Create.EqParts.{
  eq_other_lem, plain_lem, bool_lem, eq_constant_by_lem, double_negation_lem, extension_lem,
}
use cgs.Expr.Create.EqSteps.{eq_add-Implements, eq_sub-Implements, disjunction-Implements}

module _ (ops : ApInt) (laws : ApIntLaws ops) where
  disjunction_lem :
      (w c : ℕ) (a b : Expr) (m n : Option Expr)
      → w ≡ 1
      → c ≡ 0
      → IsTyped (comparison eq (constant w c) (arithmetic or a b))
      → Builds ops false m (comparison eq a (constant (width a) 0))
      → Builds ops false n (comparison eq b (constant (width b) 0))
      → Builds ops false
          (m >>= λ p. n >>= λ q. and_create ops p q)
          (comparison eq (constant w c) (arithmetic or a b))
  disjunction_lem w c a b m n hw hc h hm hn =
      let za = comparison eq a (constant (width a) 0) in
      let zb = comparison eq b (constant (width b) 0) in
      let t = comparison eq (constant w c) (arithmetic or a b) in
      let rule : Implements ops (arithmetic and za zb) t =
        disjunction-Implements ops laws w c a b hw hc h in
      Builds->>= ops false false m (λ p. n >>= λ q. and_create ops p q) za t hm
        (λ p hp sp.
          Builds->>= ops false false n (λ q. and_create ops p q) zb t hn
            (λ q hq sq.
              let impl : Implements ops (arithmetic and p q) (arithmetic and za zb) =
                arithmetic-Implements ops and p za q zb hp hq rule.0 in
              Builds-trans_any ops false _ (arithmetic and p q) t
                (and_create_lem ops laws p q impl.0)
                (Implements-trans ops (arithmetic and p q) (arithmetic and za zb) t impl rule)))

  pub eq_partial_by_lem :
      (w c : ℕ) {r : Expr} (o : EqOperand r)
      → IsTyped (comparison eq (constant w c) r)
      → Builds ops false (eq_partial_by ops w c o) (comparison eq (constant w c) r)
  eq_partial_by_lem w c (an_eq {l = l} d r) h =
      bool_lem ops laws w c (comparison eq l r) _ _ h
        (λ p q. double_negation_lem ops laws w c d r (false_bit w c ((==_iff w 1).0 p) h.0 q) h)
        (λ p. eq_other_lem ops laws (constant w c) (comparison eq l r) h)
  eq_partial_by_lem w c (a_disjunction {a = a} {b = b} x y) (tc, (ta, tb, e), e0) =
      let h : IsTyped (comparison eq (constant w c) (arithmetic or a b)) = (tc, (ta, tb, e), e0) in
      let t = comparison eq (constant w c) (arithmetic or a b) in
      let za : Fits (width a) 0 = (zero-HasWidth ops laws (width a)).0 in
      let zb : Fits (width b) 0 = (zero-HasWidth ops laws (width b)).0 in
      bool_lem ops laws w c (arithmetic or a b) _ _ h
        (λ p q.
          let one : w ≡ 1 = (==_iff w 1).0 p in
          disjunction_lem w c a b _ _ one (false_bit w c one tc q) h
            (eq_constant_by_lem ops laws (constness a) (width a) 0 _ (ta, za, refl)
              (eq_partial_by_lem (width a) 0 x (za, ta, refl)))
            (eq_constant_by_lem ops laws (constness b) (width b) 0 _ (tb, zb, refl)
              (eq_partial_by_lem (width b) 0 y (zb, tb, refl))))
        (λ p. eq_other_lem ops laws (constant w c) (arithmetic or a b) h)
  eq_partial_by_lem w c (a_sext {e = e} x v) (tc, (te, k), e0) =
      let t = comparison eq (constant w c) (sext e v) in
      bool_lem ops laws w c (sext e v) _ _ (tc, (te, k), e0)
        (λ p q. eq_other_lem ops laws (constant w c) (sext e v) (tc, (te, k), e0))
        (λ p.
          extension_lem ops laws ops.sext_or_trunc laws.trunc_sext w c v e t _ tc te k e0 refl
            (λ contents. cc (e0, laws.eq_lem w c (eval ops contents (sext e v))))
            (eq_partial_by_lem (width e) (ops.zext_or_trunc w (width e) c) x
              (laws.zext_or_trunc_fits w (width e) c tc, te, refl)))
  eq_partial_by_lem w c (a_zext {e = e} x v) (tc, (te, k), e0) =
      let t = comparison eq (constant w c) (zext e v) in
      bool_lem ops laws w c (zext e v) _ _ (tc, (te, k), e0)
        (λ p q. eq_other_lem ops laws (constant w c) (zext e v) (tc, (te, k), e0))
        (λ p.
          extension_lem ops laws ops.zext_or_trunc laws.trunc_zext w c v e t _ tc te k e0 refl
            (λ contents. cc (e0, laws.eq_lem w c (eval ops contents (zext e v))))
            (eq_partial_by_lem (width e) (ops.zext_or_trunc w (width e) c) x
              (laws.zext_or_trunc_fits w (width e) c tc, te, refl)))
  eq_partial_by_lem w c (an_add {b = b} (a_constant v d) y) h =
      let rule = eq_add-Implements ops laws w c v d b h in
      let t = comparison eq (constant w c) (arithmetic add (constant v d) b) in
      bool_lem ops laws w c (arithmetic add (constant v d) b) _ _ h
        (λ p q. eq_other_lem ops laws (constant w c) (arithmetic add (constant v d) b) h)
        (λ p. assert-Builds ops laws w v _ t h.2 (
          Builds-trans_any ops false _ (comparison eq (constant w (ops.arithmetic_op sub w c d)) b)
            t (eq_partial_by_lem w (ops.arithmetic_op sub w c d) y rule.0) rule))
  eq_partial_by_lem w c (an_add {b = b} (no_constant a z) y) h =
      plain_lem ops laws w c (arithmetic add a b) h
  eq_partial_by_lem w c (a_sub {b = b} (a_constant v d) y) h =
      let rule = eq_sub-Implements ops laws w c v d b h in
      let t = comparison eq (constant w c) (arithmetic sub (constant v d) b) in
      bool_lem ops laws w c (arithmetic sub (constant v d) b) _ _ h
        (λ p q. eq_other_lem ops laws (constant w c) (arithmetic sub (constant v d) b) h)
        (λ p. assert-Builds ops laws v w _ t (sym h.2) (
          Builds-trans_any ops false _ (comparison eq (constant v (ops.arithmetic_op sub v d c)) b)
            t (eq_partial_by_lem v (ops.arithmetic_op sub v d c) y rule.0) rule))
  eq_partial_by_lem w c (a_sub {b = b} (no_constant a z) y) h =
      plain_lem ops laws w c (arithmetic sub a b) h
  eq_partial_by_lem w c (another_operand r) h = plain_lem ops laws w c r h

  eq_by_lem :
      {l r : Expr} (cl : Constness l) (cr : Constness r)
      → IsTyped (comparison eq l r)
      → Builds ops false (eq_by ops cl cr) (comparison eq l r)
  eq_by_lem (a_constant w c) (a_constant v d) h =
      constant-Builds ops laws false (comparison eq (constant w c) (constant v d)) _ h
        (λ contents. refl) (omega arith)
  eq_by_lem (a_constant w c) (no_constant r z) h = eq_partial_by_lem w c (eq_operand r) h
  eq_by_lem (no_constant l z) (a_constant w c) h =
      let s = swapped_eq-Implements ops laws l (constant w c) h in
      Builds-trans_any ops false _ (comparison eq (constant w c) l) (comparison eq l (constant w c))
        (eq_partial_by_lem w c (eq_operand l) s.0) s
  eq_by_lem (no_constant l z) (no_constant r z') h = eq_other_lem ops laws l r h

  pub eq_create_lem :
      (l r : Expr)
      → IsTyped (comparison eq l r)
      → Builds ops false (eq_create ops l r) (comparison eq l r)
  eq_create_lem l r h =
      assert-Builds ops laws (width l) (width r) _ (comparison eq l r) h.2
        (eq_by_lem (constness l) (constness r) h)
