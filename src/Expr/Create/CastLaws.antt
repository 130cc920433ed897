-- ===== src/Expr/Create/CastLaws.antt =====
-- klee/lib/Expr/Expr.cpp: that create of ZExt and SExt builds what it is called for.
use cgs.Prelude.{
  ℕ, ◌==◌, ◌≡◌, ◌<◌, ◌∙◌, ltb, refl, sym, false, Option, some, ==_iff, ltb→lt, lt→ltb, arith,
  if◌then◌else◌,
}
use native.Mathlib.Nat.{mod-eq_of_lt}
use cgs.Expr.Node.{
  Constness, a_constant, no_constant, constness, Array, Expr, constant, extract, zext, sext, width,
}
use cgs.Expr.ApInt.{ApInt, ApIntLaws, Fits}
use cgs.Expr.Value.{eval, IsTyped}
use cgs.Expr.Sound.{Implements, Builds, constant-Builds, if-Builds}
use cgs.Expr.Regrouping.{value-Fits}
use cgs.Expr.Create.BitwiseLaws.{any-Builds, same-any}
use cgs.Expr.Create.Parts.{zext_by, zext_create, sext_by, sext_create}
use cgs.Expr.Create.PartLaws.{extract_create_lem}

module _ (ops : ApInt) (laws : ApIntLaws ops) where
  same_zext : (w x : ℕ) → Fits w x → x ≡ ops.zext_or_trunc w w x
  same_zext w x f = sym (laws.zext_lem w w x f ∙ mod-eq_of_lt f)

  same_sext : (w x : ℕ) → Fits w x → x ≡ ops.sext_or_trunc w w x
  same_sext w x f =
      let y = ops.sext_or_trunc w w x in
      let g : Fits w y = laws.sext_or_trunc_fits w w x f in
      sym (laws.trunc_sext w w x f (omega arith)) ∙ laws.zext_lem w w y g ∙ mod-eq_of_lt g

  -- A cast to the width that is there
  same_cast-Implements :
      (ext : ℕ → ℕ → ℕ → ℕ) (e t : Expr)
      → ((w x : ℕ) → Fits w x → x ≡ ext w w x)
      → IsTyped e
      → width t ≡ width e
      → ((contents : Array → ℕ → ℕ)
          → eval ops contents t ≡ ext (width e) (width e) (eval ops contents e))
      → Implements ops e t
  same_cast-Implements ext e t same h k v = (
    h,
    sym k,
    λ contents fit.
        let f = value-Fits ops laws contents (width e) e fit (h, refl) in
        same (width e) (eval ops contents e) f ∙ sym (v contents),
  )

  zext_by_lem :
      {e : Expr} (x : Constness e) (w : ℕ)
      → IsTyped (zext e w)
      → Builds ops false (zext_by ops x w) (zext e w)
  zext_by_lem (a_constant v x) w h =
      constant-Builds ops laws false (zext (constant v x) w) _ h (λ contents. refl) (omega arith)
  zext_by_lem (no_constant e z) w h = same-any ops laws (zext e w) h

  sext_by_lem :
      {e : Expr} (x : Constness e) (w : ℕ)
      → IsTyped (sext e w)
      → Builds ops false (sext_by ops x w) (sext e w)
  sext_by_lem (a_constant v x) w h =
      constant-Builds ops laws false (sext (constant v x) w) _ h (λ contents. refl) (omega arith)
  sext_by_lem (no_constant e z) w h = same-any ops laws (sext e w) h

  pub zext_create_lem :
      (e : Expr) (w : ℕ) → IsTyped (zext e w) → Builds ops false (zext_create ops e w) (zext e w)
  zext_create_lem e w h =
      if-Builds ops false (w == width e) _ _ (zext e w)
        (λ p.
          let q : w ≡ width e = (==_iff w (width e)).0 p in
          any-Builds ops laws e (zext e w) (
            same_cast-Implements ops.zext_or_trunc e (zext e w) same_zext h.0 q (λ contents. cc q)))
        (λ p.
          if-Builds ops false (ltb w (width e)) _ _ (zext e w)
            (λ q. absurd (omega (arith, h.1, ltb→lt w (width e) q)))
            (λ q. zext_by_lem (constness e) w h))

  pub sext_create_lem :
      (e : Expr) (w : ℕ) → IsTyped (sext e w) → Builds ops false (sext_create ops e w) (sext e w)
  sext_create_lem e w h =
      if-Builds ops false (w == width e) _ _ (sext e w)
        (λ p.
          let q : w ≡ width e = (==_iff w (width e)).0 p in
          any-Builds ops laws e (sext e w) (
            same_cast-Implements ops.sext_or_trunc e (sext e w) same_sext h.0 q (λ contents. cc q)))
        (λ p.
          if-Builds ops false (ltb w (width e)) _ _ (sext e w)
            (λ q. absurd (omega (arith, h.1, ltb→lt w (width e) q)))
            (λ q. sext_by_lem (constness e) w h))

  -- Casts to fewer bits
  narrow_lem :
      (e : Expr) (w : ℕ) (m n : Option Expr)
      → w < width e
      → Builds ops false m (extract e 0 w)
      → Builds ops false
          (if w == width e then some e else if ltb w (width e) then m else n)
          (extract e 0 w)
  narrow_lem e w m n h k =
      if-Builds ops false (w == width e) _ _ (extract e 0 w)
        (λ p. absurd (omega (arith, h, (==_iff w (width e)).0 p)))
        (λ p. rw (lt→ltb w (width e) h) k)

  pub narrow_zext_lem :
      (e : Expr) (w : ℕ)
      → IsTyped e
      → 0 < w
      → w < width e
      → Builds ops false (zext_create ops e w) (extract e 0 w)
  narrow_zext_lem e w h pos k =
      narrow_lem e w _ _ k (extract_create_lem ops laws e 0 w (h, omega (arith, k)) pos)

  pub narrow_sext_lem :
      (e : Expr) (w : ℕ)
      → IsTyped e
      → 0 < w
      → w < width e
      → Builds ops false (sext_create ops e w) (extract e 0 w)
  narrow_sext_lem e w h pos k =
      narrow_lem e w _ _ k (extract_create_lem ops laws e 0 w (h, omega (arith, k)) pos)
