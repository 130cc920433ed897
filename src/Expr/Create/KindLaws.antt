-- ===== src/Expr/Create/KindLaws.antt =====
-- klee/lib/Expr/Expr.cpp: that createFromKind builds what it is called for.
use cgs.Prelude.{
  ℕ, List, [], ◌∷◌, ◌<◌, ◌==◌, ◌≡◌, ◌&&◌, ◌∙◌, sym, false, some, true_ne_false, if◌then◌else◌,
}
use cgs.Expr.Node.{
  IsSafe, is_division, Expr, not_optimized, select, concat, extract, zext, sext, ArithmeticKind,
  CompareKind, constant, arithmetic, comparison, add, sub, mul, udiv, sdiv, urem, srem, and, or,
  xor, shl, lshr, ashr, eq, ne, ult, ule, ugt, uge, slt, sle, sgt, sge, width,
}
use cgs.Expr.ApInt.{ApInt, ApIntLaws}
use cgs.Expr.Value.{IsTyped}
use cgs.Expr.Sound.{Builds, if-Builds}
use cgs.Expr.Create.BitwiseLaws.{same-any, and_create_lem, or_create_lem}
use cgs.Expr.Create.EqLaws.{eq_create_lem}
use cgs.Expr.Create.NeLaws.{ne_create_lem}
use cgs.Expr.Create.SumLaws.{add_create_lem, sub_create_lem}
use cgs.Expr.Create.ProductLaws.{mul_create_lem, xor_create_lem}
use cgs.Expr.Create.Order.{
  udiv_other, sdiv_other, urem_other, srem_other, ult_create, ule_create, slt_create, sle_create,
}
use cgs.Expr.Create.OrderLaws.{
  plain_create_lem, shl_create_lem, lshr_create_lem, ashr_create_lem, ult_create_lem,
  ule_create_lem, slt_create_lem, sle_create_lem, turned_create_lem,
}
use cgs.Expr.Create.SelectLaws.{select_create_lem}
use cgs.Expr.Create.PartLaws.{concat_create_lem}
use cgs.Expr.Create.CastLaws.{zext_create_lem, sext_create_lem, narrow_zext_lem, narrow_sext_lem}
use cgs.Expr.Create.Kinds.{
  Kind, not_optimized_kind, select_kind, concat_kind, zext_kind, sext_kind, arithmetic_kind,
  comparison_kind, CreateArg, an_expr, a_width, create_from_kind, arithmetic_from_kind,
  comparison_from_kind,
}

-- The expression that createFromKind is called for. A cast to fewer bits takes the lower ones.
pub data Requests : Kind → List CreateArg → Expr → Type 0 where
  not_optimized_request :
      (e : Expr) → Requests not_optimized_kind (an_expr e ∷ []) (not_optimized e)
  select_request :
      (c t f : Expr) → Requests select_kind (an_expr c ∷ an_expr t ∷ an_expr f ∷ []) (select c t f)
  concat_request : (l r : Expr) → Requests concat_kind (an_expr l ∷ an_expr r ∷ []) (concat l r)
  zext_request : (e : Expr) (w : ℕ) → Requests zext_kind (an_expr e ∷ a_width w ∷ []) (zext e w)
  sext_request : (e : Expr) (w : ℕ) → Requests sext_kind (an_expr e ∷ a_width w ∷ []) (sext e w)
  narrow_zext_request :
      (e : Expr) (w : ℕ)
      → w < width e
      → Requests zext_kind (an_expr e ∷ a_width w ∷ []) (extract e 0 w)
  narrow_sext_request :
      (e : Expr) (w : ℕ)
      → w < width e
      → Requests sext_kind (an_expr e ∷ a_width w ∷ []) (extract e 0 w)
  arithmetic_request :
      (k : ArithmeticKind) (l r : Expr)
      → Requests (arithmetic_kind k) (an_expr l ∷ an_expr r ∷ []) (arithmetic k l r)
  comparison_request :
      (k : CompareKind) (l r : Expr)
      → Requests (comparison_kind k) (an_expr l ∷ an_expr r ∷ []) (comparison k l r)

-- Parts with bits, no division of one bit and none of two constants by 0
abbrev pub IsCovered : Expr → Type 0
IsCovered (concat l r) = 0 < width l
IsCovered (extract e off w) = 0 < w
IsCovered (arithmetic k l r) = ((is_division k && (width l == 1)) ≡ false) × IsSafe k l r
IsCovered e = Unit

module _ (ops : ApInt) (laws : ApIntLaws ops) where
  -- A division of more than one bit is kept as it is.
  division_lem :
      (k : ArithmeticKind) (l r d : Expr)
      → IsTyped (arithmetic k l r)
      → (width l == 1) ≡ false
      → Builds ops false
          (if width l == 1 then some d else some (arithmetic k l r))
          (arithmetic k l r)
  division_lem k l r d h wide =
      if-Builds ops false (width l == 1) _ _ (arithmetic k l r)
        (λ p. absurd (true_ne_false (sym p ∙ wide))) (λ p. same-any ops laws (arithmetic k l r) h)

  -- createFromKind returns for each of the thirteen arithmetic kinds and typed operands, although
  -- create of Add and Sub call one another, and gives a typed expression with the width and the
  -- value of the one to build, where APInt computes as documented; divisions of one bit are
  -- excepted.
  pub arithmetic_from_kind_lem :
      (k : ArithmeticKind) (l r : Expr)
      → IsTyped (arithmetic k l r)
      → (is_division k && (width l == 1)) ≡ false
      → IsSafe k l r
      → Builds ops false (arithmetic_from_kind ops k l r) (arithmetic k l r)
  arithmetic_from_kind_lem add l r h wide safe = add_create_lem ops laws l r h
  arithmetic_from_kind_lem sub l r h wide safe = sub_create_lem ops laws l r h
  arithmetic_from_kind_lem mul l r h wide safe = mul_create_lem ops laws l r h
  arithmetic_from_kind_lem udiv l r h wide safe =
      plain_create_lem ops laws udiv (udiv_other ops) l r h safe (division_lem udiv l r l h wide)
  arithmetic_from_kind_lem sdiv l r h wide safe =
      plain_create_lem ops laws sdiv (sdiv_other ops) l r h safe (division_lem sdiv l r l h wide)
  arithmetic_from_kind_lem urem l r h wide safe =
      plain_create_lem ops laws urem (urem_other ops) l r h safe
        (division_lem urem l r (constant 1 0) h wide)
  arithmetic_from_kind_lem srem l r h wide safe =
      plain_create_lem ops laws srem (srem_other ops) l r h safe
        (division_lem srem l r (constant 1 0) h wide)
  arithmetic_from_kind_lem and l r h wide safe = and_create_lem ops laws l r h
  arithmetic_from_kind_lem or l r h wide safe = or_create_lem ops laws l r h
  arithmetic_from_kind_lem xor l r h wide safe = xor_create_lem ops laws l r h
  arithmetic_from_kind_lem shl l r h wide safe = shl_create_lem ops laws l r h
  arithmetic_from_kind_lem lshr l r h wide safe = lshr_create_lem ops laws l r h
  arithmetic_from_kind_lem ashr l r h wide safe = ashr_create_lem ops laws l r h

  -- createFromKind returns for each of the ten comparisons of typed operands, whatever it turns
  -- round, negates, truncates or moves to the other side, and gives a typed expression with the
  -- width and the value of the comparison under all contents of the arrays, where APInt computes
  -- as documented.
  pub comparison_from_kind_lem :
      (k : CompareKind) (l r : Expr)
      → IsTyped (comparison k l r)
      → Builds ops false (comparison_from_kind ops k l r) (comparison k l r)
  comparison_from_kind_lem eq l r h = eq_create_lem ops laws l r h
  comparison_from_kind_lem ne l r h = ne_create_lem ops laws l r h
  comparison_from_kind_lem ult l r h = ult_create_lem ops laws l r h
  comparison_from_kind_lem ule l r h = ule_create_lem ops laws l r h
  comparison_from_kind_lem slt l r h = slt_create_lem ops laws l r h
  comparison_from_kind_lem sle l r h = sle_create_lem ops laws l r h
  comparison_from_kind_lem ugt l r h =
      turned_create_lem ops laws ult ugt laws.ugt_lem (ult_create ops) (ult_create_lem ops laws) l r
        h
  comparison_from_kind_lem uge l r h =
      turned_create_lem ops laws ule uge laws.uge_lem (ule_create ops) (ule_create_lem ops laws) l r
        h
  comparison_from_kind_lem sgt l r h =
      turned_create_lem ops laws slt sgt laws.sgt_lem (slt_create ops) (slt_create_lem ops laws) l r
        h
  comparison_from_kind_lem sge l r h =
      turned_create_lem ops laws sle sge laws.sge_lem (sle_create ops) (sle_create_lem ops laws) l r
        h

  -- For each request that createFromKind serves, with typed operands, it returns and gives a typed
  -- expression with the width and the value of the one it is called for, whatever it folds, turns
  -- round, negates, regroups, splits or merges, where APInt computes as documented: kept and
  -- selected expressions, concatenations whose left part has bits, casts to at least or, where
  -- bits are left, to fewer bits, the thirteen arithmetic kinds but for divisions of one bit and
  -- of a constant by the constant 0, which fails an assertion of APInt, and the ten comparisons.
  pub create_from_kind_lem :
      (k : Kind) (args : List CreateArg) (e : Expr)
      → Requests k args e
      → IsTyped e
      → IsCovered e
      → Builds ops false (create_from_kind ops k args) e
  create_from_kind_lem k args e (not_optimized_request d) h cover =
      same-any ops laws (not_optimized d) h
  create_from_kind_lem k args e (select_request c t f) h cover = select_create_lem ops laws c t f h
  create_from_kind_lem k args e (concat_request l r) h cover =
      concat_create_lem ops laws l r h cover
  create_from_kind_lem k args e (zext_request d w) h cover = zext_create_lem ops laws d w h
  create_from_kind_lem k args e (sext_request d w) h cover = sext_create_lem ops laws d w h
  create_from_kind_lem k args e (narrow_zext_request d w b) h cover =
      narrow_zext_lem ops laws d w h.0 cover b
  create_from_kind_lem k args e (narrow_sext_request d w b) h cover =
      narrow_sext_lem ops laws d w h.0 cover b
  create_from_kind_lem k args e (arithmetic_request j l r) h cover =
      arithmetic_from_kind_lem j l r h cover.0 cover.1
  create_from_kind_lem k args e (comparison_request j l r) h cover =
      comparison_from_kind_lem j l r h
