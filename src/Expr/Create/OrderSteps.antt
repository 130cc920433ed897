-- ===== src/Expr/Create/OrderSteps.antt =====
-- klee/lib/Expr/Expr.cpp: what the shifts and the orders are on bits.
use cgs.Prelude.{ℕ, zero, suc, ◌<◌, ◌==◌, ◌≡◌, ◌∙◌, refl, sym, ap, false, Option, ◌>>=◌, arith}
use cgs.Expr.Node.{
  Array, Expr, ArithmeticKind, constant, arithmetic, comparison, eq, and, or, width,
}
use cgs.Expr.ApInt.{ApInt, ApIntLaws, Fits, shift_signed}
use cgs.Expr.Constant.{bool_value}
use cgs.Expr.Value.{arithmetic_value, FitContents, eval, IsTyped}
use cgs.Expr.Sound.{
  Implements, Implements-refl, Implements-trans, arithmetic-Implements, Builds, Builds-trans_any,
  Builds->>=,
}
use cgs.Expr.Regrouping.{value-Fits, zero-HasWidth}
use cgs.Expr.EqLaws.{bit_bound}
use cgs.Expr.Create.Eq.{create_is_zero}
use cgs.Expr.Create.NeLaws.{create_is_zero_lem}

-- A fact on two bits, from its four cases
on_bits : (P : ℕ → ℕ → Type 0) → P 0 0 → P 0 1 → P 1 0 → P 1 1 → (a b : ℕ) → a < 2 → b < 2 → P a b
on_bits P p q r s zero zero h k = p
on_bits P p q r s zero (suc zero) h k = q
on_bits P p q r s (suc zero) zero h k = r
on_bits P p q r s (suc zero) (suc zero) h k = s
on_bits P p q r s zero (suc (suc b)) h k = absurd (omega arith)
on_bits P p q r s (suc zero) (suc (suc b)) h k = absurd (omega arith)
on_bits P p q r s (suc (suc a)) b h k = absurd (omega arith)

-- The last bit is kept, whatever the number of shifts.
pub shifted_bit : (x y : ℕ) → x < 2 → y < 2 → x ≡ shift_signed 1 x y
shifted_bit = on_bits (λ x y. x ≡ shift_signed 1 x y) refl refl refl refl

module _ (ops : ApInt) (laws : ApIntLaws ops) where
  -- The four values of a function on bits: l & !r, !l & r, !l | r and l | !r
  pub and_not_lem :
      (f : ℕ → ℕ → ℕ)
      → (f 0 0 ≡ 0) × (f 0 1 ≡ 0) × (f 1 0 ≡ 1) × (f 1 1 ≡ 0)
      → (x y : ℕ) → x < 2
      → y < 2
      → ops.arithmetic_op and 1 x (bool_value (y == 0)) ≡ f x y
  and_not_lem f (p, q, r, s) =
      on_bits (λ x y. ops.arithmetic_op and 1 x (bool_value (y == 0)) ≡ f x y)
        (laws.and_zero 1 1 (omega arith) ∙ sym p) (laws.and_zero 1 0 (omega arith) ∙ sym q)
        (laws.and_ones 1 1 (omega arith) ∙ sym r) (laws.and_ones 1 0 (omega arith) ∙ sym s)

  pub not_and_lem :
      (f : ℕ → ℕ → ℕ)
      → (f 0 0 ≡ 0) × (f 0 1 ≡ 1) × (f 1 0 ≡ 0) × (f 1 1 ≡ 0)
      → (x y : ℕ) → x < 2
      → y < 2
      → ops.arithmetic_op and 1 (bool_value (x == 0)) y ≡ f x y
  not_and_lem f (p, q, r, s) =
      on_bits (λ x y. ops.arithmetic_op and 1 (bool_value (x == 0)) y ≡ f x y)
        (laws.and_ones 1 0 (omega arith) ∙ sym p) (laws.and_ones 1 1 (omega arith) ∙ sym q)
        (laws.and_zero 1 0 (omega arith) ∙ sym r) (laws.and_zero 1 1 (omega arith) ∙ sym s)

  pub not_or_lem :
      (f : ℕ → ℕ → ℕ)
      → (f 0 0 ≡ 1) × (f 0 1 ≡ 1) × (f 1 0 ≡ 0) × (f 1 1 ≡ 1)
      → (x y : ℕ) → x < 2
      → y < 2
      → ops.arithmetic_op or 1 (bool_value (x == 0)) y ≡ f x y
  not_or_lem f (p, q, r, s) =
      on_bits (λ x y. ops.arithmetic_op or 1 (bool_value (x == 0)) y ≡ f x y)
        (laws.or_ones 1 0 (omega arith) ∙ sym p) (laws.or_ones 1 1 (omega arith) ∙ sym q)
        (laws.or_zero 1 0 (omega arith) ∙ sym r) (laws.or_zero 1 1 (omega arith) ∙ sym s)

  pub or_not_lem :
      (f : ℕ → ℕ → ℕ)
      → (f 0 0 ≡ 1) × (f 0 1 ≡ 0) × (f 1 0 ≡ 1) × (f 1 1 ≡ 1)
      → (x y : ℕ) → x < 2
      → y < 2
      → ops.arithmetic_op or 1 x (bool_value (y == 0)) ≡ f x y
  or_not_lem f (p, q, r, s) =
      on_bits (λ x y. ops.arithmetic_op or 1 x (bool_value (y == 0)) ≡ f x y)
        (laws.or_zero 1 1 (omega arith) ∙ sym p) (laws.or_zero 1 0 (omega arith) ∙ sym q)
        (laws.or_ones 1 1 (omega arith) ∙ sym r) (laws.or_ones 1 0 (omega arith) ∙ sym s)

  pub and_lem :
      (f : ℕ → ℕ → ℕ)
      → (f 0 0 ≡ 0) × (f 0 1 ≡ 0) × (f 1 0 ≡ 0) × (f 1 1 ≡ 1)
      → (x y : ℕ) → x < 2
      → y < 2
      → ops.arithmetic_op and 1 x y ≡ f x y
  and_lem f (p, q, r, s) =
      on_bits (λ x y. ops.arithmetic_op and 1 x y ≡ f x y) (laws.and_zero 1 0 (omega arith) ∙ sym p)
        (laws.and_zero 1 1 (omega arith) ∙ sym q) (laws.and_ones 1 0 (omega arith) ∙ sym r)
        (laws.and_ones 1 1 (omega arith) ∙ sym s)

  pub or_lem :
      (f : ℕ → ℕ → ℕ)
      → (f 0 0 ≡ 0) × (f 0 1 ≡ 1) × (f 1 0 ≡ 1) × (f 1 1 ≡ 1)
      → (x y : ℕ) → x < 2
      → y < 2
      → ops.arithmetic_op or 1 x y ≡ f x y
  or_lem f (p, q, r, s) =
      on_bits (λ x y. ops.arithmetic_op or 1 x y ≡ f x y) (laws.or_zero 1 0 (omega arith) ∙ sym p)
        (laws.or_zero 1 1 (omega arith) ∙ sym q) (laws.or_ones 1 0 (omega arith) ∙ sym r)
        (laws.or_ones 1 1 (omega arith) ∙ sym s)

  abbrev pub zero_test : Expr → Expr
  zero_test e = comparison eq e (constant (width e) 0)

  zero_test_value :
      (contents : Array → ℕ → ℕ) (e : Expr)
      → eval ops contents (zero_test e) ≡ bool_value (eval ops contents e == 0)
  zero_test_value contents e = ap bool_value (laws.eq_lem (width e) (eval ops contents e) 0)

  module _ (j : ArithmeticKind) (create : Expr → Expr → Option Expr)
      (create_lem : (l r : Expr)
        → IsTyped (arithmetic j l r)
        → Builds ops false (create l r) (arithmetic j l r))
      (f : ℕ → ℕ → ℕ) (l r t : Expr) (one : width l ≡ 1)
      (typed : IsTyped l × IsTyped r × (width l ≡ width r)) (t_typed : IsTyped t)
      (t_one : width t ≡ 1)
      (t_value : (contents : Array → ℕ → ℕ)
        → eval ops contents t ≡ f (eval ops contents l) (eval ops contents r)) where
    bits :
        (contents : Array → ℕ → ℕ)
        → FitContents contents
        → (eval ops contents l < 2) × (eval ops contents r < 2)
    bits contents fit = (
      bit_bound (width l) _ one (value-Fits ops laws contents (width l) l fit (typed.0, refl)),
      bit_bound (width l) _ one
          (value-Fits ops laws contents (width l) r fit (typed.1, sym typed.2)),
    )

    pub joined_lem :
        ((x y : ℕ) → x < 2 → y < 2 → arithmetic_value ops j 1 x y ≡ f x y)
        → Builds ops false (create l r) t
    joined_lem same =
        let rule : Implements ops (arithmetic j l r) t = (
          typed,
          one ∙ sym t_one,
          λ contents fit. let b = bits contents fit in cc (one, t_value contents, same _ _ b.0 b.1),
        ) in
        Builds-trans_any ops false _ (arithmetic j l r) t (create_lem l r typed) rule

    -- What is built with the test of the right operand, or of the left one
    pub right_test_lem :
        ((x y : ℕ) → x < 2 → y < 2 → arithmetic_value ops j 1 x (bool_value (y == 0)) ≡ f x y)
        → Builds ops false (create_is_zero ops r >>= create l) t
    right_test_lem same =
        let z : Fits (width r) 0 = (zero-HasWidth ops laws (width r)).0 in
        let joined : IsTyped (arithmetic j l (zero_test r)) = (typed.0, (typed.1, z, refl), one) in
        let rule : Implements ops (arithmetic j l (zero_test r)) t = (
          joined,
          one ∙ sym t_one,
          λ contents fit.
              let b = bits contents fit in
              cc (one, zero_test_value contents r, t_value contents, same _ _ b.0 b.1),
        ) in
        Builds->>= ops false false (create_is_zero ops r) (create l) (zero_test r) t
          (create_is_zero_lem ops laws r typed.1)
          (λ e he s.
            let impl : Implements ops (arithmetic j l e) (arithmetic j l (zero_test r)) =
              arithmetic-Implements ops j l l e (zero_test r) (Implements-refl ops l typed.0) he
                joined in
            Builds-trans_any ops false _ (arithmetic j l e) t (create_lem l e impl.0)
              (Implements-trans ops (arithmetic j l e) (arithmetic j l (zero_test r)) t impl rule))

    pub left_test_lem :
        ((x y : ℕ) → x < 2 → y < 2 → arithmetic_value ops j 1 (bool_value (x == 0)) y ≡ f x y)
        → Builds ops false (create_is_zero ops l >>= λ e. create e r) t
    left_test_lem same =
        let z : Fits (width l) 0 = (zero-HasWidth ops laws (width l)).0 in
        let joined : IsTyped (arithmetic j (zero_test l) r) =
          ((typed.0, z, refl), typed.1, sym one ∙ typed.2) in
        let rule : Implements ops (arithmetic j (zero_test l) r) t = (
          joined,
          sym t_one,
          λ contents fit.
              let b = bits contents fit in
              cc (one, zero_test_value contents l, t_value contents, same _ _ b.0 b.1),
        ) in
        Builds->>= ops false false (create_is_zero ops l) (λ e. create e r) (zero_test l) t
          (create_is_zero_lem ops laws l typed.0)
          (λ e he s.
            let impl : Implements ops (arithmetic j e r) (arithmetic j (zero_test l) r) =
              arithmetic-Implements ops j e (zero_test l) r r he (Implements-refl ops r typed.1)
                joined in
            Builds-trans_any ops false _ (arithmetic j e r) t (create_lem e r impl.0)
              (Implements-trans ops (arithmetic j e r) (arithmetic j (zero_test l) r) t impl rule))
