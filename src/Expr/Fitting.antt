-- ===== src/Expr/Fitting.antt =====
-- klee/lib/Expr/Expr.cpp: that the value of an expression fits its width.
use cgs.Prelude.{
  ℕ, suc, ◌+◌, ◌-◌, ◌^◌, ◌<◌, ◌==◌, ◌≡◌, sym, Bool, true, false, if◌then◌else◌, arith, ◌&&◌, refl,
  inl, inr, Bool-cases,
}
use cgs.Expr.Node.{
  Array, ArithmeticKind, is_division, Expr, UpdateNode, constant, not_optimized, read, select,
  concat, extract, zext, sext, negation, arithmetic, comparison, no_update, update, width, or,
}
use cgs.Expr.ApInt.{ApInt, ApIntLaws, Fits}
use cgs.Expr.Constant.{bool_value}
use cgs.Expr.Value.{FitContents, arithmetic_value, eval, eval_read, IsTyped, AreTyped}

pub bool_value-Fits : (b : Bool) → Fits 1 (bool_value b)
bool_value-Fits true = omega arith
bool_value-Fits false = omega arith

if-Fits : (b : Bool) (w x y : ℕ) → Fits w x → Fits w y → Fits w (if b then x else y)
if-Fits true w x y h k = h
if-Fits false w x y h k = k

complement-lt : (m a c : ℕ) → a < m → c ≡ m - suc a → c < m
complement-lt m a c h e = omega arith

module _ (ops : ApInt) (laws : ApIntLaws ops) where
  pub complement-Fits : (w a : ℕ) → Fits w a → Fits w (ops.complement w a)
  complement-Fits w a h = complement-lt (2 ^ w) a (ops.complement w a) h (laws.complement_lem w a h)

  arithmetic_value-Fits :
      (k : ArithmeticKind) (w a b : ℕ) → Fits w a → Fits w b → Fits w (arithmetic_value ops k w a b)
  arithmetic_value-Fits k w a b f g = elim (Bool-cases (is_division k && (b == 0))) [
    | inl p ↦ rw p (laws.division_by_zero_fits k w a f)
    | inr p ↦ rw p (laws.arithmetic_fits k w a b f g p)
  ]

  module _ (contents : Array → ℕ → ℕ) (fit : FitContents contents) where
    mutual
      eval-Fits_all : (e : Expr) → IsTyped e → Fits (width e) (eval ops contents e)
      eval-Fits_all (constant w v) h = h
      eval-Fits_all (not_optimized e) h = eval-Fits_all e h
      eval-Fits_all (read root head index) (hi, hw, hs) =
          eval_read-Fits_all root head (eval ops contents index) hs
      eval-Fits_all (select c t f) (hc, ht, hf, hw, e) =
          if-Fits (eval ops contents c == 0) (width t) (eval ops contents f) (eval ops contents t)
            (rw e (eval-Fits_all f hf)) (eval-Fits_all t ht)
      eval-Fits_all (concat l r) (hl, hr) =
          laws.arithmetic_fits or (width l + width r) _ _
            (laws.shift_left_fits (width l + width r) _ (width r)
              (laws.zext_or_trunc_fits (width l) (width l + width r) _ (eval-Fits_all l hl)))
            (laws.zext_or_trunc_fits (width r) (width l + width r) _ (eval-Fits_all r hr)) refl
      eval-Fits_all (extract e offset w) (h, hw) =
          laws.zext_or_trunc_fits (width e) w _
            (laws.shift_right_signed_fits (width e) _ offset (eval-Fits_all e h))
      eval-Fits_all (zext e w) (h, k) = laws.zext_or_trunc_fits (width e) w _ (eval-Fits_all e h)
      eval-Fits_all (sext e w) (h, k) = laws.sext_or_trunc_fits (width e) w _ (eval-Fits_all e h)
      eval-Fits_all (negation e) h = complement-Fits (width e) _ (eval-Fits_all e h)
      eval-Fits_all (arithmetic k l r) (hl, hr, e) =
          arithmetic_value-Fits k (width l) _ _ (eval-Fits_all l hl) (rw e (eval-Fits_all r hr))
      eval-Fits_all (comparison k l r) h = bool_value-Fits (ops.compare_op k (width l) _ _)

      eval_read-Fits_all :
          (root : Array) (head : UpdateNode) (i : ℕ)
          → AreTyped root head
          → Fits root.range (eval_read ops contents root head i)
      eval_read-Fits_all root no_update i h = fit root i
      eval_read-Fits_all root (update index value next) i (hi, hv, wi, wv, hs) =
          if-Fits (i == eval ops contents index) root.range _ _
            (rw (sym wv) (eval-Fits_all value hv)) (eval_read-Fits_all root next i hs)

    pub eval-Fits : (e : Expr) → IsTyped e → Fits (width e) (eval ops contents e)
    eval-Fits e h = eval-Fits_all e h
