-- ===== src/Expr/Create/PartSteps.antt =====
-- klee/lib/Expr/Expr.cpp: what ExtractExpr::create and ConcatExpr::create build in place of what
-- they are called for.
use cgs.Prelude.{ℕ, ◌+◌, ◌-◌, ◌*◌, ◌^◌, ◌≤◌, ◌<◌, ◌≡◌, refl, sym, arith}
use cgs.Expr.Node.{Array, Expr, concat, extract, width}
use cgs.Expr.ApInt.{ApInt, ApIntLaws, Fits}
use cgs.Expr.Value.{FitContents, eval, IsTyped}
use cgs.Expr.PartValues.{extract_value_lem, concat_value_lem}
use cgs.Expr.Slices.{slice, slice_all, slice_merge, slice_left, slice_right, slice_across}
use cgs.Expr.Sound.{Implements}
use cgs.Expr.Regrouping.{value-Fits}

module _ (ops : ApInt) (laws : ApIntLaws ops) where
  pub concat-Implements :
      (l' l r' r : Expr)
      → Implements ops l' l
      → Implements ops r' r
      → Implements ops (concat l' r') (concat l r)
  concat-Implements l' l r' r (hl, wl, vl) (hr, wr, vr) = (
    (hl, hr),
    omega (arith, wl, wr),
    λ contents fit. cc (wl, wr, vl contents fit, vr contents fit),
  )

  module _ (contents : Array → ℕ → ℕ) (fit : FitContents contents) where
    value_below : (e : Expr) → IsTyped e → Fits (width e) (eval ops contents e)
    value_below e h = value-Fits ops laws contents (width e) e fit (h, refl)

    extract_eval :
        (e : Expr) (off w : ℕ)
        → IsTyped (extract e off w)
        → eval ops contents (extract e off w) ≡ slice (eval ops contents e) off w
    extract_eval e off w (h, k) =
        extract_value_lem ops laws (width e) (eval ops contents e) off w (value_below e h) k

    concat_eval :
        (l r : Expr)
        → IsTyped (concat l r)
        → eval ops contents (concat l r) ≡ eval ops contents l * 2 ^ width r + eval ops contents r
    concat_eval l r (h, k) =
        (concat_value_lem ops laws (width l) (eval ops contents l) (width r) (eval ops contents r)
          (value_below l h) (value_below r k)).0

  pub whole-Implements :
      (e : Expr) (off w : ℕ)
      → w ≡ width e
      → IsTyped (extract e off w)
      → Implements ops e (extract e off w)
  whole-Implements e off w same (h, k) = (
    h,
    sym same,
    λ contents fit.
        let zero_off : off ≡ 0 = omega (arith, same, k) in
        let x = eval ops contents e in
        cc (
          extract_eval contents fit e off w (h, k),
          zero_off,
          same,
          slice_all x (width e) (value_below contents fit e h),
        ),
  )

  pub left-Implements :
      (l r : Expr) (off w : ℕ)
      → width r ≤ off
      → IsTyped (extract (concat l r) off w)
      → Implements ops (extract l (off - width r) w) (extract (concat l r) off w)
  left-Implements l r off w low ((h, i), k) =
      let t : IsTyped (extract l (off - width r) w) = (h, omega (arith, low, k)) in
      (
        t,
        refl,
        λ contents fit.
            let x = eval ops contents l in
            let y = eval ops contents r in
            cc (
              extract_eval contents fit l (off - width r) w t,
              extract_eval contents fit (concat l r) off w ((h, i), k),
              concat_eval contents fit l r (h, i),
              slice_left x y (width r) (value_below contents fit r i) off w low,
            ),
      )

  pub right-Implements :
      (l r : Expr) (off w : ℕ)
      → off + w ≤ width r
      → IsTyped (extract (concat l r) off w)
      → Implements ops (extract r off w) (extract (concat l r) off w)
  right-Implements l r off w low ((h, i), k) = (
    (i, low),
    refl,
    λ contents fit.
        let x = eval ops contents l in
        let y = eval ops contents r in
        cc (
          extract_eval contents fit r off w (i, low),
          extract_eval contents fit (concat l r) off w ((h, i), k),
          concat_eval contents fit l r (h, i),
          slice_right x y (width r) (value_below contents fit r i) off w low,
        ),
  )

  pub across-Implements :
      (l r : Expr) (off w : ℕ)
      → off < width r
      → width r < off + w
      → IsTyped (extract (concat l r) off w)
      → Implements ops
          (concat (extract l 0 ((w + off) - width r)) (extract r off (width r - off)))
          (extract (concat l r) off w)
  across-Implements l r off w low high ((h, i), k) =
      let u = extract l 0 ((w + off) - width r) in
      let v = extract r off (width r - off) in
      let tu : IsTyped u = (h, omega (arith, low, high, k)) in
      let tv : IsTyped v = (i, omega (arith, low)) in
      (
        (tu, tv),
        omega (arith, low, high),
        λ contents fit.
            let x = eval ops contents l in
            let y = eval ops contents r in
            cc (
              extract_eval contents fit l 0 ((w + off) - width r) tu,
              extract_eval contents fit r off (width r - off) tv,
              concat_eval contents fit u v (tu, tv),
              extract_eval contents fit (concat l r) off w ((h, i), k),
              concat_eval contents fit l r (h, i),
              slice_across x y (width r) (value_below contents fit r i) off w low high,
            ),
      )

  pub merge-Implements :
      (d e : Expr) (o w o' w' : ℕ)
      → d ≡ e
      → o' + w' ≡ o
      → IsTyped (concat (extract d o w) (extract e o' w'))
      → Implements ops (extract d o' (w + w')) (concat (extract d o w) (extract e o' w'))
  merge-Implements d e o w o' w' same next ((h, i), (j, k)) =
      let t : IsTyped (extract d o' (w + w')) = (h, omega (arith, next, i)) in
      (
        t,
        refl,
        λ contents fit.
            let x = eval ops contents d in
            cc (
              extract_eval contents fit d o' (w + w') t,
              extract_eval contents fit d o w (h, i),
              extract_eval contents fit e o' w' (j, k),
              concat_eval contents fit (extract d o w) (extract e o' w') ((h, i), (j, k)),
              same,
              next,
              slice_merge x o' w w',
            ),
      )
