-- ===== src/Expr/SpecializedLaws.antt =====
-- klee/lib/Expr/ExprBuilder.cpp: that ConstantSpecializedExprBuilder keeps what its helper promises.
use cgs.Prelude.{
  ℕ, suc, ◌-◌, ◌^◌, ◌≤◌, ◌<◌, ◌≡◌, ◌∙◌, ◌⊎◌, inl, inr, refl, sym, ap, subst, Bool, true, false,
  ◌&&◌, ◌==◌, Option, some, arith, Bool-cases, ==_iff, true_ne_false, assert, ◌>>◌,
}
use cgs.Expr.Node.{
  is_division, divides_by_zero, NotOperand, a_negation, no_negation, not_operand, Constness,
  a_constant, no_constant, constness, Array, Expr, UpdateNode, ArithmeticKind, CompareKind,
  constant, not_optimized, read, select, concat, extract, zext, sext, negation, arithmetic,
  comparison, no_update, update, eq, width, size, is_false_by,
}
use cgs.Expr.ApInt.{ApInt, ApIntLaws, Fits}
use cgs.Expr.Constant.{bool_value}
use cgs.Expr.Value.{FitContents, eval, eval_read, IsTyped, AreTyped}
use cgs.Expr.Fitting.{eval-Fits, complement-Fits}
use cgs.Expr.Builder.{ExprBuilder}
use cgs.Expr.Sound.{
  constant_arithmetic_lem, Builds, IsSound, some-Builds, Builds-trans, constant-Builds,
}
use cgs.Expr.Specialized.{
  arithmetic_by, comparison_by, select_by, concat_by, extract_by, zext_by, sext_by, not_by,
  roll_back, specialized_read, specialized_builder,
}

pub size-positive : (e : Expr) → 1 ≤ size e
size-positive (constant w v) = omega arith
size-positive (not_optimized e) = omega arith
size-positive (read root head index) = omega arith
size-positive (select c t f) = omega arith
size-positive (concat l r) = omega arith
size-positive (extract e offset w) = omega arith
size-positive (zext e w) = omega arith
size-positive (sext e w) = omega arith
size-positive (negation e) = omega arith
size-positive (arithmetic k l r) = omega arith
size-positive (comparison k l r) = omega arith

zero-bool_value : (c : Bool) → bool_value c ≡ 0 → c ≡ false
zero-bool_value true h = absurd (omega arith)
zero-bool_value false h = refl

not_not_value : (m x c d : ℕ) → x < m → c ≡ m - suc x → d ≡ m - suc c → d ≡ x
not_not_value m x c d h e k = omega arith

module _ (ops : ApInt) where
  -- An expression of one bit that is false has the value 0.
  is_false_by_lem :
      {e : Expr} (d : Constness e)
      → width e ≡ 1
      → (b : Bool) × (is_false_by d ≡ some b)
        × ((b ≡ false) ⊎ ((contents : Array → ℕ → ℕ) → eval ops contents e ≡ 0))
  is_false_by_lem (a_constant w v) h = (
    (w == 1) && (v == 0),
    ap (λ (c : Bool). assert c >> some ((w == 1) && (v == 0))) ((==_iff w 1).1 h),
    elim (Bool-cases (v == 0)) [
      | inl p ↦ inr (λ contents. (==_iff v 0).0 p)
      | inr p ↦ inl (ground arith)
    ],
  )
  is_false_by_lem (no_constant e k) h =
      (false, ap (λ (c : Bool). assert c >> some false) ((==_iff (width e) 1).1 h), inl refl)

  pub arithmetic_by_lem :
      (laws : ApIntLaws ops) (b : Bool) (helper : ExprBuilder) (k : ArithmeticKind) {l r : Expr}
      (cl : Constness l) (cr : Constness r)
      → IsTyped (arithmetic k l r)
      → (is_division k && divides_by_zero cl cr) ≡ false
      → Builds ops b (helper.build_arithmetic k l r) (arithmetic k l r)
      → Builds ops b (arithmetic_by ops helper k cl cr) (arithmetic k l r)
  arithmetic_by_lem laws b helper k (a_constant w x) (a_constant v y) h safe hyp =
      constant_arithmetic_lem ops laws b k w x v y h safe
  arithmetic_by_lem laws b helper k (a_constant w x) (no_constant r c) h safe hyp = hyp
  arithmetic_by_lem laws b helper k (no_constant l c) (a_constant v y) h safe hyp = hyp
  arithmetic_by_lem laws b helper k (no_constant l c) (no_constant r d) h safe hyp = hyp

  pub comparison_by_lem :
      (laws : ApIntLaws ops) (b : Bool) (helper : ExprBuilder) (k : CompareKind) {l r : Expr}
      (cl : Constness l) (cr : Constness r)
      → IsTyped (comparison k l r)
      → Builds ops b (helper.build_comparison k l r) (comparison k l r)
      → Builds ops b (comparison_by ops helper k cl cr) (comparison k l r)
  comparison_by_lem laws b helper k (a_constant w x) (a_constant v y) h hyp =
      constant-Builds ops laws b (comparison k (constant w x) (constant v y)) _ h (λ contents. refl)
        (omega arith)
  comparison_by_lem laws b helper k (a_constant w x) (no_constant r c) h hyp = hyp
  comparison_by_lem laws b helper k (no_constant l c) (a_constant v y) h hyp = hyp
  comparison_by_lem laws b helper k (no_constant l c) (no_constant r d) h hyp = hyp

  -- !!X has the value of X, since a value fits its width.
  pub not_by_lem :
      (laws : ApIntLaws ops) (b : Bool) (helper : ExprBuilder) {e : Expr} (c : NotOperand e)
      → IsTyped e
      → Builds ops b (helper.build_not e) (negation e)
      → Builds ops b (not_by ops helper c) (negation e)
  not_by_lem laws b helper (a_negation e) h hyp =
      some-Builds ops b e (negation (negation e))
        (
          h,
          refl,
          λ contents fit.
              let x = eval ops contents e in
              let f : Fits (width e) x = eval-Fits ops laws contents fit e h in
              sym (
                not_not_value (2 ^ width e) x (ops.complement (width e) x) _ f
                  (laws.complement_lem (width e) x f)
                  (laws.complement_lem (width e) _ (complement-Fits ops laws (width e) x f))),
        )
        (omega arith)
  not_by_lem laws b helper (no_negation (a_constant w x)) h hyp =
      constant-Builds ops laws b (negation (constant w x)) _ h (λ contents. refl) (omega arith)
  not_by_lem laws b helper (no_negation (no_constant e c)) h hyp = hyp

  module _ (laws : ApIntLaws ops) (b : Bool) (helper : ExprBuilder)
      (sound : IsSound ops b helper) where
    concat_by_lem :
        {l r : Expr} (cl : Constness l) (cr : Constness r)
        → IsTyped (concat l r)
        → Builds ops b (concat_by ops helper cl cr) (concat l r)
    concat_by_lem (a_constant w x) (a_constant v y) h =
        constant-Builds ops laws b (concat (constant w x) (constant v y)) _ h (λ contents. refl)
          (omega arith)
    concat_by_lem (a_constant w x) (no_constant r c) h = sound.concat_lem _ r h
    concat_by_lem (no_constant l c) (a_constant v y) h = sound.concat_lem l _ h
    concat_by_lem (no_constant l c) (no_constant r d) h = sound.concat_lem l r h

    extract_by_lem :
        {e : Expr} (c : Constness e) (offset w : ℕ)
        → IsTyped (extract e offset w)
        → Builds ops b (extract_by ops helper c offset w) (extract e offset w)
    extract_by_lem (a_constant v x) offset w h =
        constant-Builds ops laws b (extract (constant v x) offset w) _ h (λ contents. refl)
          (omega arith)
    extract_by_lem (no_constant e c) offset w h = sound.extract_lem e offset w h

    zext_by_lem :
        {e : Expr} (c : Constness e) (w : ℕ)
        → IsTyped (zext e w)
        → Builds ops b (zext_by ops helper c w) (zext e w)
    zext_by_lem (a_constant v x) w h =
        constant-Builds ops laws b (zext (constant v x) w) _ h (λ contents. refl) (omega arith)
    zext_by_lem (no_constant e c) w h = sound.zext_lem e w h

    sext_by_lem :
        {e : Expr} (c : Constness e) (w : ℕ)
        → IsTyped (sext e w)
        → Builds ops b (sext_by ops helper c w) (sext e w)
    sext_by_lem (a_constant v x) w h =
        constant-Builds ops laws b (sext (constant v x) w) _ h (λ contents. refl) (omega arith)
    sext_by_lem (no_constant e c) w h = sound.sext_lem e w h

    select_by_lem :
        {c : Expr} (d : Constness c) (t f : Expr)
        → IsTyped (select c t f)
        → Builds ops b (select_by ops helper d t f) (select c t f)
    select_by_lem (a_constant w v) t f (hc, ht, hf, e, k) = elim (Bool-cases (v == 0)) [
      | inl p ↦
          subst (λ (m : Option Expr). Builds ops b m (select (constant w v) t f))
            (rw ((==_iff w 1).1 e, p) refl)
            (some-Builds ops b f (select (constant w v) t f) (hf, sym k, λ contents fit. rw p refl)
              (omega arith))
      | inr p ↦
          subst (λ (m : Option Expr). Builds ops b m (select (constant w v) t f))
            (rw ((==_iff w 1).1 e, p) refl)
            (some-Builds ops b t (select (constant w v) t f) (ht, refl, λ contents fit. rw p refl)
              (omega arith))
    ]
    select_by_lem (no_constant c d) t f h = sound.select_lem c t f h

    -- What a read finds stays the same when writes to other indices are skipped.
    roll_back_lem :
        (root : Array) (index : Expr) (head : UpdateNode)
        → IsTyped index
        → width index ≡ root.domain
        → AreTyped root head
        → (kept : UpdateNode) × (roll_back ops helper index head ≡ some kept)
          × AreTyped root kept
          × ((contents : Array → ℕ → ℕ)
              → FitContents contents
              → eval_read ops contents root kept (eval ops contents index)
                ≡ eval_read ops contents root head (eval ops contents index))
    roll_back_lem root index no_update hi wi h = (no_update, refl, tt, λ contents fit. refl)
    roll_back_lem root index (update i v next) hi wi (h, hv, wu, wv, hs) =
        let (e, he, (te, we, ve), se) =
          comparison_by_lem laws b helper eq (constness index) (constness i) (hi, h, wi ∙ sym wu)
            (sound.comparison_lem eq index i (hi, h, wi ∙ sym wu)) in
        let (skip, hskip, cases) = is_false_by_lem (constness e) we in
        let (kept, hk, tk, vk) = roll_back_lem root index next hi wi hs in
        elim (Bool-cases skip) [
          | inr f ↦
              (update i v next, rw (he, hskip, f) refl, (h, hv, wu, wv, hs), λ contents fit. refl)
          | inl t ↦ elim cases [
            | inl f ↦ absurd (true_ne_false (sym t ∙ f))
            | inr z ↦ (
              kept,
              rw (he, hskip, t) hk,
              tk,
              λ contents fit.
                  let x = eval ops contents index in
                  let y = eval ops contents i in
                  let d : (x == y) ≡ false =
                    sym (laws.eq_lem (width index) x y)
                    ∙ zero-bool_value _ (sym (ve contents fit) ∙ z contents) in
                  rw d (vk contents fit),
            )
          ]
        ]

    read_by_lem :
        (root : Array) (head : UpdateNode) (index : Expr)
        → IsTyped (read root head index)
        → Builds ops b (specialized_read ops helper root head index) (read root head index)
    read_by_lem root head index (hi, wi, hs) =
        let (kept, hk, tk, vk) = roll_back_lem root index head hi wi hs in
        rw hk (
          Builds-trans ops b _ (read root kept index) (read root head index)
            (sound.read_lem root kept index (hi, wi, tk)) ((hi, wi, tk), refl, vk) (omega arith))

    -- Over a sound helper each method of ConstantSpecializedExprBuilder returns for typed
    -- operands, but for divisions of a constant by the constant 0, which fail an assertion of
    -- APInt, and gives a typed expression with the width and the value of the one to build: it
    -- computes with constants as the expressions mean, and reads the same after it skipped the
    -- writes whose index differs.
    pub specialized_builder_lem : IsSound ops b (specialized_builder ops helper)
    specialized_builder_lem = record {
      constant_lem = sound.constant_lem;
      not_optimized_lem = sound.not_optimized_lem;
      read_lem = λ root head index h. read_by_lem root head index h;
      select_lem = λ c t f h. select_by_lem (constness c) t f h;
      concat_lem = λ l r h. concat_by_lem (constness l) (constness r) h;
      extract_lem = λ e offset w h. extract_by_lem (constness e) offset w h;
      zext_lem = λ e w h. zext_by_lem (constness e) w h;
      sext_lem = λ e w h. sext_by_lem (constness e) w h;
      not_lem = λ e h. not_by_lem laws b helper (not_operand e) h (sound.not_lem e h);
      arithmetic_lem = λ k l r h safe.
          arithmetic_by_lem laws b helper k (constness l) (constness r) h safe
            (sound.arithmetic_lem k l r h safe);
      comparison_lem = λ k l r h.
          comparison_by_lem laws b helper k (constness l) (constness r) h
            (sound.comparison_lem k l r h);
    }
