-- ===== src/Expr/Sound.antt =====
-- klee/include/klee/Expr/ExprBuilder.h: what a builder promises. What it gives is typed and has the
-- width and the value of the expression that it is to build.
use cgs.Prelude.{
  ℕ, ◌≤◌, ◌==◌, ◌&&◌, ◌≡◌, ◌∙◌, refl, sym, Bool, true, false, Option, some, arith, ◌>>=◌,
  if◌then◌else◌,
}
use native.Mathlib.Nat.{one-le-pow}
use cgs.Expr.Node.{
  Array, Expr, UpdateNode, ArithmeticKind, CompareKind, constant, not_optimized, read, select,
  IsSafe, concat, extract, zext, sext, negation, arithmetic, comparison, is_division, width, size,
}
use cgs.Expr.ApInt.{ApInt, ApIntLaws}
use cgs.Expr.Constant.{constant_arithmetic}
use cgs.Expr.Value.{FitContents, arithmetic_value, eval, IsTyped}
use cgs.Expr.Fitting.{eval-Fits}
use cgs.Expr.Builder.{ExprBuilder, default_builder}

-- A compact builder does not give more nodes than it is to build.
abbrev pub Within : Bool → ℕ → ℕ → Type 0
Within true m n = m ≤ n
Within false m n = Unit

pub within : (b : Bool) {m n : ℕ} → m ≤ n → Within b m n
within true h = h
within false h = tt

pub Within-trans : (b : Bool) (l m n : ℕ) → Within b l m → m ≤ n → Within b l n
Within-trans true l m n h k = omega arith
Within-trans false l m n h k = tt

module _ (ops : ApInt) where
  abbrev pub Implements : Expr → Expr → Type 0
  Implements e' e =
      IsTyped e'
      × (width e' ≡ width e)
      × ((contents : Array → ℕ → ℕ)
          → FitContents contents
          → eval ops contents e' ≡ eval ops contents e)

  abbrev pub Builds : Bool → Option Expr → Expr → Type 0
  Builds b m e = (e' : Expr) × (m ≡ some e') × Implements e' e × Within b (size e') (size e)

  pub record IsSound (b : Bool) (builder : ExprBuilder) : Type 0 where
    pub constant_lem :
        (w v : ℕ) → IsTyped (constant w v) → Builds b (builder.build_constant w v) (constant w v)
    pub not_optimized_lem :
        (e : Expr) → IsTyped e → Builds b (builder.build_not_optimized e) (not_optimized e)
    pub read_lem :
        (root : Array) (head : UpdateNode) (index : Expr)
        → IsTyped (read root head index)
        → Builds b (builder.build_read root head index) (read root head index)
    pub select_lem :
        (c t f : Expr)
        → IsTyped (select c t f)
        → Builds b (builder.build_select c t f) (select c t f)
    pub concat_lem :
        (l r : Expr) → IsTyped (concat l r) → Builds b (builder.build_concat l r) (concat l r)
    pub extract_lem :
        (e : Expr) (offset w : ℕ)
        → IsTyped (extract e offset w)
        → Builds b (builder.build_extract e offset w) (extract e offset w)
    pub zext_lem :
        (e : Expr) (w : ℕ) → IsTyped (zext e w) → Builds b (builder.build_zext e w) (zext e w)
    pub sext_lem :
        (e : Expr) (w : ℕ) → IsTyped (sext e w) → Builds b (builder.build_sext e w) (sext e w)
    pub not_lem : (e : Expr) → IsTyped e → Builds b (builder.build_not e) (negation e)
    pub arithmetic_lem :
        (k : ArithmeticKind) (l r : Expr)
        → IsTyped (arithmetic k l r)
        → IsSafe k l r
        → Builds b (builder.build_arithmetic k l r) (arithmetic k l r)
    pub comparison_lem :
        (k : CompareKind) (l r : Expr)
        → IsTyped (comparison k l r)
        → Builds b (builder.build_comparison k l r) (comparison k l r)

  pub some-Builds :
      (b : Bool) (e' e : Expr) → Implements e' e → size e' ≤ size e → Builds b (some e') e
  some-Builds b e' e h k = (e', refl, h, within b k)

  pub Implements-refl : (e : Expr) → IsTyped e → Implements e e
  Implements-refl e h = (h, refl, λ contents fit. refl)

  pub Implements-trans : (d e f : Expr) → Implements d e → Implements e f → Implements d f
  Implements-trans d e f (hd, wd, vd) (he, we, ve) =
      (hd, wd ∙ we, λ contents fit. vd contents fit ∙ ve contents fit)

  pub Implements-sym : (d e : Expr) → IsTyped e → Implements d e → Implements e d
  Implements-sym d e h (hd, wd, vd) = (h, sym wd, λ contents fit. sym (vd contents fit))

  pub arithmetic-Implements :
      (k : ArithmeticKind) (l' l r' r : Expr)
      → Implements l' l
      → Implements r' r
      → IsTyped (arithmetic k l r)
      → Implements (arithmetic k l' r') (arithmetic k l r)
  arithmetic-Implements k l' l r' r (hl, wl, vl) (hr, wr, vr) (tl, tr, e) =
      ((hl, hr, wl ∙ e ∙ sym wr), wl, λ contents fit. cc (wl, vl contents fit, vr contents fit))

  -- An operation that commutes, from the operand on the other side
  pub turned-Implements :
      (k : ArithmeticKind) (l r : Expr)
      → ((w a b : ℕ) → arithmetic_value ops k w a b ≡ arithmetic_value ops k w b a)
      → IsTyped (arithmetic k l r)
      → Implements (arithmetic k r l) (arithmetic k l r)
  turned-Implements k l r swap (hl, hr, e) = (
    (hr, hl, sym e),
    sym e,
    λ contents fit. cc (e, swap (width r) (eval ops contents r) (eval ops contents l)),
  )

  pub if-Builds :
      (b c : Bool) (m n : Option Expr) (e : Expr)
      → (c ≡ true → Builds b m e)
      → (c ≡ false → Builds b n e)
      → Builds b (if c then m else n) e
  if-Builds b true m n e h k = h refl
  if-Builds b false m n e h k = k refl

  pub same-Builds : (b : Bool) (e : Expr) → IsTyped e → Builds b (some e) e
  same-Builds b e h = some-Builds b e e (h, refl, λ contents fit. refl) (omega arith)

  -- What builds an expression builds each that it implements.
  pub Builds-trans :
      (b : Bool) (m : Option Expr) (d e : Expr)
      → Builds b m d
      → Implements d e
      → size d ≤ size e
      → Builds b m e
  Builds-trans b m d e (e', he, (ht, hw, hv), hs) (kt, kw, kv) k = (
    e',
    he,
    (ht, hw ∙ kw, λ contents fit. hv contents fit ∙ kv contents fit),
    Within-trans b (size e') (size d) (size e) hs k,
  )

  -- Where the number of nodes does not matter
  pub Builds-trans_any :
      (b : Bool) (m : Option Expr) (d e : Expr) → Builds b m d → Implements d e → Builds false m e
  Builds-trans_any b m d e (e', he, h, hs) k = (e', he, Implements-trans e' d e h k, tt)

  pub Builds-any : (b : Bool) (m : Option Expr) (e : Expr) → Builds b m e → Builds false m e
  Builds-any b m e (e', he, h, hs) = (e', he, h, tt)

  pub Builds->>= :
      (b c : Bool) (m : Option Expr) (f : Expr → Option Expr) (d e : Expr)
      → Builds b m d
      → ((d' : Expr) → Implements d' d → Within b (size d') (size d) → Builds c (f d') e)
      → Builds c (m >>= f) e
  Builds->>= b c m f d e (d', hd, h, hs) k = rw hd (k d' h hs)

  module _ (laws : ApIntLaws ops) where
    zero_contents-FitContents : FitContents (λ root i. 0)
    zero_contents-FitContents root i = one-le-pow root.range 2 (omega arith)

    -- An expression with the same value under all contents is a constant.
    pub constant-Implements :
        (e : Expr) (v : ℕ)
        → IsTyped e
        → ((contents : Array → ℕ → ℕ) → v ≡ eval ops contents e)
        → Implements (constant (width e) v) e
    constant-Implements e v h k = (
      rw (k (λ root i. 0)) (eval-Fits ops laws (λ root i. 0) zero_contents-FitContents e h),
      refl,
      λ contents fit. k contents,
    )

    defined_value :
        (k : ArithmeticKind) (w c d : ℕ)
        → (is_division k && (d == 0)) ≡ false
        → ops.arithmetic_op k w c d ≡ arithmetic_value ops k w c d
    defined_value k w c d safe = rw safe refl

    defined_result :
        (k : ArithmeticKind) (w c d : ℕ)
        → (is_division k && (d == 0)) ≡ false
        → constant_arithmetic ops k w c d ≡ some (constant w (ops.arithmetic_op k w c d))
    defined_result k w c d safe = rw safe refl

    -- Two constants, but for a division by 0
    pub constant_arithmetic_lem :
        (b : Bool) (k : ArithmeticKind) (w c v d : ℕ)
        → IsTyped (arithmetic k (constant w c) (constant v d))
        → (is_division k && (d == 0)) ≡ false
        → Builds b (constant_arithmetic ops k w c d) (arithmetic k (constant w c) (constant v d))
    constant_arithmetic_lem b k w c v d h safe = (
      constant w (ops.arithmetic_op k w c d),
      defined_result k w c d safe,
      constant-Implements (arithmetic k (constant w c) (constant v d)) _ h
          (λ contents. defined_value k w c d safe),
      within b (omega arith),
    )

    pub constant-Builds :
        (b : Bool) (e : Expr) (v : ℕ)
        → IsTyped e
        → ((contents : Array → ℕ → ℕ) → v ≡ eval ops contents e)
        → 1 ≤ size e
        → Builds b (some (constant (width e) v)) e
    constant-Builds b e v h k hs =
        some-Builds b (constant (width e) v) e (constant-Implements e v h k) hs

  pub default_builder_lem : (b : Bool) → IsSound b default_builder
  default_builder_lem b = record {
    constant_lem = λ w v h. same-Builds b (constant w v) h;
    not_optimized_lem = λ e h. same-Builds b (not_optimized e) h;
    read_lem = λ root head index h. same-Builds b (read root head index) h;
    select_lem = λ c t f h. same-Builds b (select c t f) h;
    concat_lem = λ l r h. same-Builds b (concat l r) h;
    extract_lem = λ e offset w h. same-Builds b (extract e offset w) h;
    zext_lem = λ e w h. same-Builds b (zext e w) h;
    sext_lem = λ e w h. same-Builds b (sext e w) h;
    not_lem = λ e h. same-Builds b (negation e) h;
    arithmetic_lem = λ k l r h safe. same-Builds b (arithmetic k l r) h;
    comparison_lem = λ k l r h. same-Builds b (comparison k l r) h;
  }

  pub IsSound-any : (base : ExprBuilder) → IsSound true base → IsSound false base
  IsSound-any base sound = record {
    constant_lem = λ w v h. Builds-any true _ (constant w v) (sound.constant_lem w v h);
    not_optimized_lem = λ e h. Builds-any true _ (not_optimized e) (sound.not_optimized_lem e h);
    read_lem = λ root head index h.
        Builds-any true _ (read root head index) (sound.read_lem root head index h);
    select_lem = λ c t f h. Builds-any true _ (select c t f) (sound.select_lem c t f h);
    concat_lem = λ l r h. Builds-any true _ (concat l r) (sound.concat_lem l r h);
    extract_lem =
        λ e offset w h. Builds-any true _ (extract e offset w) (sound.extract_lem e offset w h);
    zext_lem = λ e w h. Builds-any true _ (zext e w) (sound.zext_lem e w h);
    sext_lem = λ e w h. Builds-any true _ (sext e w) (sound.sext_lem e w h);
    not_lem = λ e h. Builds-any true _ (negation e) (sound.not_lem e h);
    arithmetic_lem =
        λ k l r h safe. Builds-any true _ (arithmetic k l r) (sound.arithmetic_lem k l r h safe);
    comparison_lem = λ k l r h. Builds-any true _ (comparison k l r) (sound.comparison_lem k l r h);
  }
