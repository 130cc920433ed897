-- ===== src/Expr/Regrouping.antt =====
-- klee/lib/Expr/ExprBuilder.cpp: the values of sums and differences of one width.
pub mod Sums
pub mod Differences
use cgs.Prelude.{ℕ, ◌^◌, ◌≡◌, ◌∙◌, refl, sym, ap, arith}
use native.Mathlib.Nat.{one-le-pow}
use cgs.Expr.Node.{Array, Expr, constant, arithmetic, add, sub, width}
use cgs.Expr.ApInt.{ApInt, ApIntLaws, Fits}
use cgs.Expr.Value.{FitContents, eval, IsTyped}
use cgs.Expr.Fitting.{eval-Fits}
use cgs.Expr.Words.{plus, minus}

abbrev pub HasWidth : ℕ → Expr → Type 0
HasWidth w e = IsTyped e × (width e ≡ w)

module _ (ops : ApInt) (laws : ApIntLaws ops) where
  module _ (contents : Array → ℕ → ℕ) where
    pub sum_value :
        (w : ℕ) (l r : Expr)
        → width l ≡ w
        → eval ops contents (arithmetic add l r)
          ≡ plus (2 ^ w) (eval ops contents l) (eval ops contents r)
    sum_value w l r h =
        ap (λ (v : ℕ). ops.arithmetic_op add v (eval ops contents l) (eval ops contents r)) h
        ∙ laws.add_lem w (eval ops contents l) (eval ops contents r)

    pub difference_value :
        (w : ℕ) (l r : Expr)
        → width l ≡ w
        → eval ops contents (arithmetic sub l r)
          ≡ minus (2 ^ w) (eval ops contents l) (eval ops contents r)
    difference_value w l r h =
        ap (λ (v : ℕ). ops.arithmetic_op sub v (eval ops contents l) (eval ops contents r)) h
        ∙ laws.sub_lem w (eval ops contents l) (eval ops contents r)

    pub value-Fits :
        (w : ℕ) (e : Expr) → FitContents contents → HasWidth w e → Fits w (eval ops contents e)
    value-Fits w e fit (h, k) = rw (sym k) (eval-Fits ops laws contents fit e h)

  pub zero-HasWidth : (w : ℕ) → HasWidth w (constant w 0)
  zero-HasWidth w = (one-le-pow w 2 (omega arith), refl)
