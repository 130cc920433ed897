-- ===== src/Expr/Create/PartLaws.antt =====
-- klee/lib/Expr/Expr.cpp: that create of Extract and Concat builds what it is called for, and that the calls of create within create come to an end.
use cgs.Prelude.{
  ℕ, zero, suc, ◌+◌, ◌-◌, ◌==◌, ◌≡◌, ◌≤◌, ◌<◌, leb, refl, false, Option, ◌>>=◌, ==_iff, leb→le,
  arith,
}
use cgs.Expr.Node.{Expr, constant, concat, extract, width, size, Expr-discrete}
use cgs.Expr.ApInt.{ApInt, ApIntLaws}
use cgs.Expr.Constant.{concat_value, extract_value}
use cgs.Expr.Value.{IsTyped}
use cgs.Expr.Sound.{Implements, Implements-refl, Implements-trans, Builds, constant-Implements}
use cgs.Expr.Create.Parts.{
  PartOperand, a_number, a_concat, an_extract, a_whole, part_operand, merge_extracts, concat_by,
  extract_by, extract_at, extract_create, concat_create,
}
use cgs.Expr.Create.PartSteps.{
  concat-Implements, whole-Implements, left-Implements, right-Implements, across-Implements,
  merge-Implements,
}
use cgs.Expr.Create.Cuts.{
  inner_size, inner_size-le, leb-false, valid_part, Cuts, Cuts-trans, if-Cuts, Cuts->>=,
  joined-Cuts,
}

module _ (ops : ApInt) (laws : ApIntLaws ops) where
  -- Over create of Extract for expressions with fewer nodes
  module _ (extract_rec : Expr → ℕ → ℕ → Option Expr) (total : ℕ)
      (rec_lem : (e : Expr) (off w : ℕ)
        → IsTyped (extract e off w)
        → 0 < w
        → size e < total
        → Cuts ops laws (extract_rec e off w) (extract e off w) (size e)) where
    merge_lem :
        {d e : Expr} (q : Dec (d ≡ e)) (o w o' w' : ℕ) (s : ℕ)
        → IsTyped (concat (extract d o w) (extract e o' w'))
        → 0 < w
        → size d ≤ s
        → s < total
        → Cuts ops laws
            (merge_extracts ops extract_rec q o w o' w')
            (concat (extract d o w) (extract e o' w'))
            s
    merge_lem {d = d} {e = e} (yes p) o w o' w' s h pos k b =
        let t = concat (extract d o w) (extract e o' w') in
        if-Cuts ops laws (o' + w' == o) _ _ t s
          (λ q.
            let rule = merge-Implements ops laws d e o w o' w' p ((==_iff (o' + w') o).0 q) h in
            Cuts-trans ops laws _ (extract d o' (w + w')) t (size d) s
              (rec_lem d o' (w + w') rule.0 (omega (arith, pos)) (omega (arith, k, b))) rule k)
          (λ q. (t, refl, Implements-refl ops t h, omega arith))
    merge_lem {d = d} {e = e} (no p) o w o' w' s h pos k b =
        let t = concat (extract d o w) (extract e o' w') in
        (t, refl, Implements-refl ops t h, omega arith)

    pub concat_by_lem :
        {l r : Expr} (x : PartOperand l) (y : PartOperand r) (s : ℕ)
        → IsTyped (concat l r)
        → 0 < width l
        → inner_size l ≤ s
        → s < total
        → Cuts ops laws (concat_by ops extract_rec x y) (concat l r) s
    concat_by_lem (a_number w v) (a_number w' v') s h pos k b = (
      _,
      refl,
      constant-Implements ops laws (concat (constant w v) (constant w' v'))
          (concat_value ops w v w' v') h (λ contents. refl),
      omega arith,
    )
    concat_by_lem (an_extract d o w) (an_extract e o' w') s h pos k b =
        merge_lem (Expr-discrete d e) o w o' w' s h pos k b
    concat_by_lem (a_number w v) (a_concat a c) s h pos k b =
        joined-Cuts ops laws (constant w v) (concat a c) s h
    concat_by_lem (a_number w v) (an_extract e o w') s h pos k b =
        joined-Cuts ops laws (constant w v) (extract e o w') s h
    concat_by_lem (a_number w v) (a_whole e) s h pos k b = joined-Cuts ops laws (constant w v) e s h
    concat_by_lem {r = r} (a_concat a c) y s h pos k b = joined-Cuts ops laws (concat a c) r s h
    concat_by_lem {r = r} (a_whole e) y s h pos k b = joined-Cuts ops laws e r s h
    concat_by_lem (an_extract d o w) (a_number w' v) s h pos k b =
        joined-Cuts ops laws (extract d o w) (constant w' v) s h
    concat_by_lem (an_extract d o w) (a_concat a c) s h pos k b =
        joined-Cuts ops laws (extract d o w) (concat a c) s h
    concat_by_lem (an_extract d o w) (a_whole e) s h pos k b =
        joined-Cuts ops laws (extract d o w) e s h

    across_lem :
        (l r : Expr) (off w : ℕ)
        → off < width r
        → width r < off + w
        → IsTyped (extract (concat l r) off w)
        → size (concat l r) ≤ total
        → Cuts ops laws
            (extract_rec l 0 ((w + off) - width r) >>= λ x.
              extract_rec r off (width r - off) >>= λ y.
              concat_by ops extract_rec (part_operand x) (part_operand y))
            (extract (concat l r) off w)
            (size (concat l r))
    across_lem l r off w low high h k =
        let u = extract l 0 ((w + off) - width r) in
        let v = extract r off (width r - off) in
        let t = extract (concat l r) off w in
        let rule : Implements ops (concat u v) t =
          across-Implements ops laws l r off w low high h in
        Cuts->>= ops laws (extract_rec l 0 ((w + off) - width r)) _ u t (size l) (size (concat l r))
          (rec_lem l 0 ((w + off) - width r) rule.0.0 (omega (arith, high)) (omega (arith, k)))
          (λ x hx kx.
            Cuts->>= ops laws (extract_rec r off (width r - off)) _ v t (size r) (size (concat l r))
              (rec_lem r off (width r - off) rule.0.1 (omega (arith, low)) (omega (arith, k)))
              (λ y hy ky.
                let impl : Implements ops (concat x y) (concat u v) =
                  concat-Implements ops laws x u y v hx hy in
                Cuts-trans ops laws _ (concat x y) t (size l) (size (concat l r))
                  (concat_by_lem (part_operand x) (part_operand y) (size l) impl.0
                    (omega (arith, hx.1, high)) kx (omega (arith, k)))
                  (Implements-trans ops (concat x y) (concat u v) t impl rule) (omega arith)))

    extract_by_lem :
        {e : Expr} (x : PartOperand e) (off w : ℕ)
        → IsTyped (extract e off w)
        → 0 < w
        → size e ≤ total
        → Cuts ops laws (extract_by ops extract_rec x off w) (extract e off w) (size e)
    extract_by_lem (a_number v x) off w h pos k = (
      _,
      refl,
      constant-Implements ops laws (extract (constant v x) off w) (extract_value ops v x off w) h
          (λ contents. refl),
      omega arith,
    )
    extract_by_lem (a_concat l r) off w h pos k =
        let t = extract (concat l r) off w in
        if-Cuts ops laws (leb (width r) off) _ _ t (size (concat l r))
          (λ p.
            let rule = left-Implements ops laws l r off w (leb→le (width r) off p) h in
            Cuts-trans ops laws _ (extract l (off - width r) w) t (size l) (size (concat l r))
              (rec_lem l (off - width r) w rule.0 pos (omega (arith, k))) rule (omega arith))
          (λ p.
            if-Cuts ops laws (leb (off + w) (width r)) _ _ t (size (concat l r))
              (λ q.
                let rule = right-Implements ops laws l r off w (leb→le (off + w) (width r) q) h in
                Cuts-trans ops laws _ (extract r off w) t (size r) (size (concat l r))
                  (rec_lem r off w rule.0 pos (omega (arith, k))) rule (omega arith))
              (λ q.
                across_lem l r off w (leb-false (width r) off p) (leb-false (off + w) (width r) q) h
                  k))
    extract_by_lem (an_extract e o v) off w h pos k =
        (_, refl, Implements-refl ops (extract (extract e o v) off w) h, omega arith)
    extract_by_lem (a_whole e) off w h pos k =
        (_, refl, Implements-refl ops (extract e off w) h, omega arith)

  extract_at_lem :
      (n : ℕ) (e : Expr) (off w : ℕ)
      → IsTyped (extract e off w)
      → 0 < w
      → size e < n
      → Cuts ops laws (extract_at ops n e off w) (extract e off w) (size e)
  extract_at_lem zero e off w h pos k = absurd (omega arith)
  extract_at_lem (suc n) e off w h pos k = rw (valid_part off w (width e) pos h.1) (
      if-Cuts ops laws (w == width e) _ _ (extract e off w) (size e)
        (λ p. (
          e,
          refl,
          whole-Implements ops laws e off w ((==_iff w (width e)).0 p) h,
          inner_size-le e,
        ))
        (λ p.
          extract_by_lem (extract_at ops n) n (extract_at_lem n) (part_operand e) off w h pos
            (omega (arith, k))))

  -- ExtractExpr::create returns for a part with bits of a typed expression, although it calls
  -- itself and ConcatExpr::create, which calls it for what an extract was taken from, and gives a
  -- typed expression with the width and the value of the part: below concatenations on either side
  -- of it or across it, where APInt computes as documented.
  pub extract_create_lem :
      (e : Expr) (off w : ℕ)
      → IsTyped (extract e off w)
      → 0 < w
      → Builds ops false (extract_create ops e off w) (extract e off w)
  extract_create_lem e off w h pos =
      let (e', p, impl, k) = extract_at_lem (suc (size e)) e off w h pos (omega arith) in
      (e', p, impl, tt)

  pub concat_create_lem :
      (l r : Expr)
      → IsTyped (concat l r)
      → 0 < width l
      → Builds ops false (concat_create ops l r) (concat l r)
  concat_create_lem l r h pos =
      let (e', p, impl, k) =
        concat_by_lem (extract_create ops) (suc (inner_size l))
          (λ e off w t q b. extract_at_lem (suc (size e)) e off w t q (omega arith))
          (part_operand l) (part_operand r) (inner_size l) h pos (omega arith) (omega arith) in
      (e', p, impl, tt)
