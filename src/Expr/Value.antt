-- ===== src/Expr/Value.antt =====
-- What the expressions of klee/include/klee/Expr/Expr.h mean: the value under contents of the
-- arrays, and when the widths of an expression are right.
use cgs.Prelude.{ℕ, ◌≤◌, ◌+◌, ◌==◌, ◌≡◌, ◌&&◌, if◌then◌else◌}
use cgs.Expr.Node.{
  Array, ArithmeticKind, is_division, Expr, UpdateNode, constant, not_optimized, read, select,
  concat, extract, zext, sext, negation, arithmetic, comparison, no_update, update, width,
}
use cgs.Expr.ApInt.{ApInt, Fits}
use cgs.Expr.Constant.{bool_value, concat_value, extract_value}

abbrev pub FitContents : (Array → ℕ → ℕ) → Type 0
FitContents contents = (root : Array) (i : ℕ) → Fits root.range (contents root i)

abbrev pub arithmetic_value : ApInt → ArithmeticKind → ℕ → ℕ → ℕ → ℕ
arithmetic_value ops k w a b =
    if is_division k && (b == 0) then ops.division_by_zero k w a else ops.arithmetic_op k w a b

module _ (ops : ApInt) (contents : Array → ℕ → ℕ) where
  -- A read finds the most recent write to its index, or else the contents of the root.
  abbrev mutual
    pub eval : Expr → ℕ
    eval (constant w v) = v
    eval (not_optimized e) = eval e
    eval (read root head index) = eval_read root head (eval index)
    eval (select c t f) = if eval c == 0 then eval f else eval t
    eval (concat l r) = concat_value ops (width l) (eval l) (width r) (eval r)
    eval (extract e offset w) = extract_value ops (width e) (eval e) offset w
    eval (zext e w) = ops.zext_or_trunc (width e) w (eval e)
    eval (sext e w) = ops.sext_or_trunc (width e) w (eval e)
    eval (negation e) = ops.complement (width e) (eval e)
    eval (arithmetic k l r) = arithmetic_value ops k (width l) (eval l) (eval r)
    eval (comparison k l r) = bool_value (ops.compare_op k (width l) (eval l) (eval r))

    pub eval_read : Array → UpdateNode → ℕ → ℕ
    eval_read root no_update i = contents root i
    eval_read root (update index value next) i =
        if i == eval index then eval value else eval_read root next i

-- The widths of the parts fit together, and constants fit their widths.
abbrev mutual
  pub IsTyped : Expr → Type 0
  IsTyped (constant w v) = Fits w v
  IsTyped (not_optimized e) = IsTyped e
  IsTyped (read root head index) = IsTyped index × (width index ≡ root.domain) × AreTyped root head
  IsTyped (select c t f) = IsTyped c × IsTyped t × IsTyped f × (width c ≡ 1) × (width t ≡ width f)
  IsTyped (concat l r) = IsTyped l × IsTyped r
  IsTyped (extract e offset w) = IsTyped e × (offset + w ≤ width e)
  IsTyped (zext e w) = IsTyped e × (width e ≤ w)
  IsTyped (sext e w) = IsTyped e × (width e ≤ w)
  IsTyped (negation e) = IsTyped e
  IsTyped (arithmetic k l r) = IsTyped l × IsTyped r × (width l ≡ width r)
  IsTyped (comparison k l r) = IsTyped l × IsTyped r × (width l ≡ width r)

  pub AreTyped : Array → UpdateNode → Type 0
  AreTyped root no_update = Unit
  AreTyped root (update index value next) =
      IsTyped index
      × IsTyped value
      × (width index ≡ root.domain)
      × (width value ≡ root.range)
      × AreTyped root next
