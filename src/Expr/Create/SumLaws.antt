-- ===== src/Expr/Create/SumLaws.antt =====
-- klee/lib/Expr/Expr.cpp: that create of Add and Sub builds what it is called for, and that the calls
-- of create within create come to an end.
use cgs.Prelude.{ℕ, zero, suc, ◌+◌, ◌<◌, refl, false, arith}
use cgs.Expr.Node.{constness, Expr, constant, arithmetic, add, sub, width, size}
use cgs.Expr.ApInt.{ApInt, ApIntLaws}
use cgs.Expr.Value.{IsTyped}
use cgs.Expr.Sound.{Builds, Builds-trans_any}
use cgs.Expr.Regrouping.Sums.{plus_comm_lem}
use cgs.Expr.Create.BitwiseLaws.{assert-Builds, binary_by_lem}
use cgs.Expr.Create.Eq.{eq_operand}
use cgs.Expr.Create.PartialSumLaws.{add_partial_by_lem, sub_partial_by_lem, sub_partial_lem}
use cgs.Expr.Create.Sum.{
  add_partial_r, add_partial, sub_partial_r, sub_partial, add_other, sub_other, add_at, sub_at,
  add_create, sub_create,
}
use cgs.Expr.Create.OtherSumLaws.{add_other_lem, sub_other_lem}

module _ (ops : ApInt) (laws : ApIntLaws ops) where
  add_partial_lem :
      (l : Expr) (w c : ℕ)
      → IsTyped (arithmetic add l (constant w c))
      → Builds ops false (add_partial ops l w c) (arithmetic add l (constant w c))
  add_partial_lem l w c (hl, hc, e) =
      let rule = plus_comm_lem ops laws w l (constant w c) (hl, e) (hc, refl) in
      Builds-trans_any ops false _ (arithmetic add (constant w c) l)
        (arithmetic add l (constant w c)) (add_partial_by_lem ops laws w c (eq_operand l) rule.0)
        rule

  mutual
    add_at_lem_all :
        (n : ℕ) (l r : Expr)
        → IsTyped (arithmetic add l r)
        → size l + size r < n
        → Builds ops false (add_at ops n l r) (arithmetic add l r)
    add_at_lem_all zero l r h hn = absurd (omega arith)
    add_at_lem_all (suc n) l r h hn =
        assert-Builds ops laws (width l) (width r) _ (arithmetic add l r) h.2 (
          binary_by_lem ops laws add (add_partial_r ops) (add_partial ops)
            (add_other ops (add_at ops n) (sub_at ops n))
            (λ w c e he. add_partial_by_lem ops laws w c (eq_operand e) he) add_partial_lem refl
            (λ ht.
              add_other_lem ops laws (add_at ops n) (sub_at ops n) (size l + size r)
                (λ l' r' h' b. add_at_lem_all n l' r' h' (omega arith))
                (λ l' r' h' b. sub_at_lem_all n l' r' h' (omega arith)) l r ht (omega arith))
            (constness l) (constness r) h)

    sub_at_lem_all :
        (n : ℕ) (l r : Expr)
        → IsTyped (arithmetic sub l r)
        → size l + size r < n
        → Builds ops false (sub_at ops n l r) (arithmetic sub l r)
    sub_at_lem_all zero l r h hn = absurd (omega arith)
    sub_at_lem_all (suc n) l r h hn =
        assert-Builds ops laws (width l) (width r) _ (arithmetic sub l r) h.2 (
          binary_by_lem ops laws sub (sub_partial_r ops) (sub_partial ops)
            (sub_other ops (add_at ops n) (sub_at ops n))
            (λ w c e he. sub_partial_by_lem ops laws w c (eq_operand e) he)
            (λ e w c he. sub_partial_lem ops laws e w c he) refl
            (λ ht.
              sub_other_lem ops laws (add_at ops n) (sub_at ops n) (size l + size r)
                (λ l' r' h' b. add_at_lem_all n l' r' h' (omega arith))
                (λ l' r' h' b. sub_at_lem_all n l' r' h' (omega arith)) l r ht (omega arith))
            (constness l) (constness r) h)

  pub add_create_lem :
      (l r : Expr)
      → IsTyped (arithmetic add l r)
      → Builds ops false (add_create ops l r) (arithmetic add l r)
  add_create_lem l r h = add_at_lem_all (suc (size l + size r)) l r h (omega arith)

  pub sub_create_lem :
      (l r : Expr)
      → IsTyped (arithmetic sub l r)
      → Builds ops false (sub_create ops l r) (arithmetic sub l r)
  sub_create_lem l r h = sub_at_lem_all (suc (size l + size r)) l r h (omega arith)
