-- ===== src/Expr/Create/Parts.antt =====
-- klee/lib/Expr/Expr.cpp: create of Extract, Concat, ZExt and SExt. Widths are taken to be far
-- below 2 to the power of 32, so that their sums do not wrap around.
use cgs.Prelude.{
  ℕ, zero, suc, ◌+◌, ◌-◌, ◌==◌, ltb, leb, ◌≡◌, ◌&&◌, List, [], ◌∷◌, Option, none, some, ◌>>=◌, ◌>>◌,
  assert, if◌then◌else◌,
}
use cgs.Expr.Node.{
  Constness, a_constant, no_constant, constness, Expr, constant, not_optimized, read, select,
  concat, extract, zext, sext, negation, arithmetic, comparison, width, size, Expr-discrete,
}
use cgs.Expr.ApInt.{ApInt}
use cgs.Expr.Constant.{constant_concat, constant_extract, constant_zext, constant_sext}

-- The casts of ExtractExpr::create and ConcatExpr::create
pub data PartOperand : Expr → Type 0 where
  a_number : (w v : ℕ) → PartOperand (constant w v)
  a_concat : (l r : Expr) → PartOperand (concat l r)
  an_extract : (e : Expr) (offset w : ℕ) → PartOperand (extract e offset w)
  a_whole : (e : Expr) → PartOperand e

abbrev pub part_operand : (e : Expr) → PartOperand e
part_operand (constant w v) = a_number w v
part_operand (concat l r) = a_concat l r
part_operand (extract e offset w) = an_extract e offset w
part_operand (not_optimized e) = a_whole (not_optimized e)
part_operand (read root head index) = a_whole (read root head index)
part_operand (select c t f) = a_whole (select c t f)
part_operand (zext e w) = a_whole (zext e w)
part_operand (sext e w) = a_whole (sext e w)
part_operand (negation e) = a_whole (negation e)
part_operand (arithmetic k l r) = a_whole (arithmetic k l r)
part_operand (comparison k l r) = a_whole (comparison k l r)

module _ (ops : ApInt) where
  -- ConcatExpr::create and ExtractExpr::create, over ExtractExpr::create of parts
  module _ (extract_rec : Expr → ℕ → ℕ → Option Expr) where
    abbrev pub merge_extracts : {d e : Expr} → Dec (d ≡ e) → ℕ → ℕ → ℕ → ℕ → Option Expr
    merge_extracts {d = d} {e = e} (yes p) o w o' w' =
        let merged = extract_rec d o' (w + w') in
        if o' + w' == o then merged else some (concat (extract d o w) (extract e o' w'))
    merge_extracts {d = d} {e = e} (no p) o w o' w' =
        some (concat (extract d o w) (extract e o' w'))

    abbrev pub concat_by : {l r : Expr} → PartOperand l → PartOperand r → Option Expr
    concat_by (a_number w v) (a_number w' v') = some (constant_concat ops w v w' v')
    concat_by (an_extract d o w) (an_extract e o' w') = merge_extracts (Expr-discrete d e) o w o' w'
    concat_by {l = l} {r = r} x y = some (concat l r)

    abbrev pub extract_by : {e : Expr} → PartOperand e → ℕ → ℕ → Option Expr
    extract_by (a_number v x) off w = some (constant_extract ops v x off w)
    extract_by (a_concat l r) off w =
        if leb (width r) off
        then extract_rec l (off - width r) w
        else if leb (off + w) (width r)
        then extract_rec r off w
        else (extract_rec l 0 ((w + off) - width r) >>= λ x.
            extract_rec r off (width r - off) >>= λ y. concat_by (part_operand x) (part_operand y))
    extract_by {e = e} x off w = some (extract e off w)

  -- ExtractExpr::create, with fuel for more than the nodes of the expression
  abbrev pub extract_at : ℕ → Expr → ℕ → ℕ → Option Expr
  extract_at zero e off w = none
  extract_at (suc n) e off w =
      let rest = extract_by (extract_at n) (part_operand e) off w in
      assert (ltb 0 w && leb (off + w) (width e)) >> (if w == width e then some e else rest)

  abbrev pub extract_create : Expr → ℕ → ℕ → Option Expr
  extract_create e off w = extract_at (suc (size e)) e off w

  abbrev pub concat_create : Expr → Expr → Option Expr
  concat_create l r = concat_by extract_create (part_operand l) (part_operand r)

  -- ConcatExpr::createN, create4 and create8
  abbrev pub concat_create_n : List Expr → Option Expr
  concat_create_n [] = none
  concat_create_n (kid ∷ []) = some kid
  concat_create_n (kid ∷ next ∷ kids) = concat_create_n (next ∷ kids) >>= concat_create kid

  abbrev pub concat_create4 : Expr → Expr → Expr → Expr → Option Expr
  concat_create4 a b c d = concat_create c d >>= concat_create b >>= concat_create a

  abbrev pub concat_create8 : Expr → Expr → Expr → Expr → Expr → Expr → Expr → Expr → Option Expr
  concat_create8 a b c d e f g h =
      concat_create4 e f g h
      >>= concat_create d
      >>= concat_create c
      >>= concat_create b
      >>= concat_create a

  -- ZExtExpr::create and SExtExpr::create
  abbrev pub zext_by : {e : Expr} → Constness e → ℕ → Option Expr
  zext_by (a_constant v x) w = some (constant_zext ops v x w)
  zext_by (no_constant e h) w = some (zext e w)

  abbrev pub zext_create : Expr → ℕ → Option Expr
  zext_create e w =
      if w == width e
      then some e
      else if ltb w (width e)
      then extract_create e 0 w
      else zext_by (constness e) w

  abbrev pub sext_by : {e : Expr} → Constness e → ℕ → Option Expr
  sext_by (a_constant v x) w = some (constant_sext ops v x w)
  sext_by (no_constant e h) w = some (sext e w)

  abbrev pub sext_create : Expr → ℕ → Option Expr
  sext_create e w =
      if w == width e
      then some e
      else if ltb w (width e)
      then extract_create e 0 w
      else sext_by (constness e) w
