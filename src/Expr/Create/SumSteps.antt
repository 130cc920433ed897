-- ===== src/Expr/Create/SumSteps.antt =====
-- klee/lib/Expr/Expr.cpp: create of Xor and Mul, and sums and products of single bits.
use cgs.Prelude.{
  ℕ, zero, suc, ◌+◌, ◌-◌, ◌*◌, ◌%◌, ◌==◌, ◌<◌, ◌≡◌, ◌∙◌, refl, sym, false, arith, ==_iff,
}
use cgs.Expr.Node.{
  Expr, ArithmeticKind, constant, arithmetic, comparison, eq, add, sub, mul, and, xor, width,
}
use cgs.Expr.ApInt.{ApInt, ApIntLaws, Fits}
use cgs.Expr.Constant.{bool_value, is_zero}
use cgs.Expr.Value.{arithmetic_value, eval, IsTyped}
use cgs.Expr.Sound.{Implements, Builds, Builds-trans_any, if-Builds}
use cgs.Expr.Regrouping.{value-Fits}
use cgs.Expr.EqLaws.{bit_bound}
use cgs.Expr.Create.BitwiseLaws.{any-Builds, same-any}
use cgs.Expr.Create.Eq.{eq_operand}
use cgs.Expr.Create.EqLaws.{eq_partial_by_lem}
use cgs.Expr.Create.Sum.{xor_partial_r}

one_of : (c : ℕ) → c < 2 → (c == 0) ≡ false → c ≡ 1
one_of c h p = ground arith

flipped_bit : (x y : ℕ) → x < 2 → y ≡ 2 - suc x → bool_value (0 == x) ≡ y
flipped_bit x y h e = ground arith

module _ (ops : ApInt) (laws : ApIntLaws ops) where
  xor_one : (y : ℕ) → y < 2 → ops.arithmetic_op xor 1 1 y ≡ 2 - suc y
  xor_one y h = laws.xor_ones 1 y h ∙ laws.complement_lem 1 y h

  xor_bits : (x y : ℕ) → x < 2 → y < 2 → ops.arithmetic_op xor 1 x y ≡ (x + y) % 2
  xor_bits zero y h k = laws.xor_zero 1 y k ∙ omega arith
  xor_bits (suc zero) y h k = xor_one y k ∙ omega arith
  xor_bits (suc (suc x)) y h k = absurd (omega arith)

  and_bits : (x y : ℕ) → x < 2 → y < 2 → ops.arithmetic_op and 1 x y ≡ (x * y) % 2
  and_bits zero y h k = laws.and_zero 1 y k ∙ omega arith
  and_bits (suc zero) y h k = laws.and_ones 1 y k ∙ omega arith
  and_bits (suc (suc x)) y h k = absurd (omega arith)

  -- An operation on bits by another one
  bit-Implements :
      (j k : ArithmeticKind) (l r : Expr)
      → ((x y : ℕ) → x < 2 → y < 2 → arithmetic_value ops j 1 x y ≡ arithmetic_value ops k 1 x y)
      → width l ≡ 1
      → IsTyped (arithmetic k l r)
      → Implements ops (arithmetic j l r) (arithmetic k l r)
  bit-Implements j k l r same one (hl, hr, e) = (
    (hl, hr, e),
    refl,
    λ contents fit.
        let x = eval ops contents l in
        let y = eval ops contents r in
        let f : x < 2 =
          bit_bound (width l) x one (value-Fits ops laws contents (width l) l fit (hl, refl)) in
        let g : y < 2 =
          bit_bound (width l) y one (value-Fits ops laws contents (width l) r fit (hr, sym e)) in
        cc (one, same x y f g),
  )

  pub xor_add-Implements :
      (l r : Expr)
      → width l ≡ 1
      → IsTyped (arithmetic add l r)
      → Implements ops (arithmetic xor l r) (arithmetic add l r)
  xor_add-Implements l r =
      bit-Implements xor add l r (λ x y f g. xor_bits x y f g ∙ sym (laws.add_lem 1 x y))

  pub xor_sub-Implements :
      (l r : Expr)
      → width l ≡ 1
      → IsTyped (arithmetic sub l r)
      → Implements ops (arithmetic xor l r) (arithmetic sub l r)
  xor_sub-Implements l r = bit-Implements xor sub l r (λ x y f g.
      let e : (x + y) % 2 ≡ (x + (2 - y)) % 2 = omega arith in
      xor_bits x y f g ∙ e ∙ sym (laws.sub_lem 1 x y))

  pub and_mul-Implements :
      (l r : Expr)
      → width l ≡ 1
      → IsTyped (arithmetic mul l r)
      → Implements ops (arithmetic and l r) (arithmetic mul l r)
  and_mul-Implements l r =
      bit-Implements and mul l r (λ x y f g. and_bits x y f g ∙ sym (laws.mul_lem 1 x y))

  pub xor_partial_r_lem :
      (w c : ℕ) (r : Expr)
      → IsTyped (arithmetic xor (constant w c) r)
      → Builds ops false (xor_partial_r ops w c r) (arithmetic xor (constant w c) r)
  xor_partial_r_lem w c r (hc, hr, e) =
      let t = arithmetic xor (constant w c) r in
      if-Builds ops false (is_zero c) _ _ t
        (λ p. any-Builds ops laws r t (
          hr,
          sym e,
          λ contents fit.
              let x = eval ops contents r in
              let f : Fits w x = value-Fits ops laws contents w r fit (hr, sym e) in
              cc ((==_iff c 0).0 p, laws.xor_zero w x f),
        ))
        (λ p.
          if-Builds ops false (w == 1) _ _ t
            (λ q.
              let one : w ≡ 1 = (==_iff w 1).0 q in
              let h : IsTyped (comparison eq (constant 1 0) r) = (omega arith, hr, sym one ∙ e) in
              Builds-trans_any ops false _ (comparison eq (constant 1 0) r) t
                (eq_partial_by_lem ops laws 1 0 (eq_operand r) h)
                (
                  h,
                  sym one,
                  λ contents fit.
                      let x = eval ops contents r in
                      let f : x < 2 =
                        bit_bound w x one (value-Fits ops laws contents w r fit (hr, sym e)) in
                      cc (
                        one,
                        one_of c (bit_bound w c one hc) p,
                        laws.eq_lem 1 0 x,
                        flipped_bit x _ f (xor_one x f),
                      ),
                ))
            (λ q. same-any ops laws t (hc, hr, e)))
