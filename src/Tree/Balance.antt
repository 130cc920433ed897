-- ===== src/Tree/Balance.antt =====
-- klee/include/klee/ADT/ImmutableTree.h: balance keeps the order of the values and bounds the heights.
use cgs.Prelude.{
  ℕ, ◌+◌, max, ◌≤◌, ◌<◌, ◌≡◌, ap, ◌⊎◌, inl, inr, refl, false, some, ◌∷◌, ◌++◌, append_assoc, ltb,
  leb, if◌then◌else◌, Bool-cases, leb→le, ltb→lt, arith,
}
use cgs.Tree.Node.{
  Entry, Node, terminator, node, height, new_node, rotate_right, rotate_left, balance, contents,
}

-- Each node has the height of its children and theirs differ by 2 at most.
abbrev pub IsBalanced : Node → Type 0
IsBalanced terminator = Unit
IsBalanced (node l v r h) =
    (h ≡ max (height l) (height r) + 1)
    × (height l ≤ height r + 2)
    × (height r ≤ height l + 2)
    × IsBalanced l
    × IsBalanced r

-- What a node in place of the children and the value is to be.
pub record Joins (l : Node) (v : Entry) (r t : Node) : Type 0 where
  pub balanced : IsBalanced t
  pub same : contents t ≡ contents l ++ v ∷ contents r
  pub above : max (height l) (height r) ≤ height t
  pub below : height t ≤ max (height l) (height r) + 1
  pub exact :
      (height t ≡ max (height l) (height r) + 1)
      ⊎ (height l ≡ height r + 3)
      ⊎ (height r ≡ height l + 3)

le-of_ltb : (a b : ℕ) → ltb a b ≡ false → b ≤ a
le-of_ltb a b h = ground arith

lt-of_leb : (a b : ℕ) → leb a b ≡ false → b < a
lt-of_leb a b h = ground arith

rotate_right_lem :
    (l : Node) (v : Entry) (r : Node)
    → IsBalanced l
    → IsBalanced r
    → height l ≡ height r + 3
    → (t : Node) × (rotate_right l v r ≡ some t) × Joins l v r t
rotate_right_lem terminator v r bl br tall = absurd (omega arith)
rotate_right_lem (node ll lv terminator h) v r (eh, hi, lo, bll, blr) br tall = (
  new_node ll lv (new_node terminator v r),
  ground arith,
  record {
    balanced = (refl, omega arith, omega arith, bll, (refl, omega arith, omega arith, tt, br));
    same = simp append_assoc;
    above = omega arith;
    below = omega arith;
    exact = inr (inl tall);
  },
)
rotate_right_lem (node ll lv (node a av b c) h) v r (eh, hi, lo, bll, (elr, hilr, lolr, ba, bb)) br
      tall =
    elim (Bool-cases (leb c (height ll))) [
      | inl e ↦
          let le : c ≤ height ll = leb→le c (height ll) e in
          (
            new_node ll lv (new_node (node a av b c) v r),
            ap
                (λ z.
                  if z
                  then some (new_node ll lv (new_node (node a av b c) v r))
                  else some (new_node (new_node ll lv a) av (new_node b v r)))
                e,
            record {
              balanced = (
                refl,
                omega arith,
                omega arith,
                bll,
                (refl, omega arith, omega arith, (elr, hilr, lolr, ba, bb), br),
              );
              same = simp append_assoc;
              above = omega arith;
              below = omega arith;
              exact = inr (inl tall);
            },
          )
      | inr e ↦
          let lt : height ll < c = lt-of_leb c (height ll) e in
          (
            new_node (new_node ll lv a) av (new_node b v r),
            ap
                (λ z.
                  if z
                  then some (new_node ll lv (new_node (node a av b c) v r))
                  else some (new_node (new_node ll lv a) av (new_node b v r)))
                e,
            record {
              balanced = (
                refl,
                omega arith,
                omega arith,
                (refl, omega arith, omega arith, bll, ba),
                (refl, omega arith, omega arith, bb, br),
              );
              same = simp append_assoc;
              above = omega arith;
              below = omega arith;
              exact = inr (inl tall);
            },
          )
    ]

rotate_left_lem :
    (l : Node) (v : Entry) (r : Node)
    → IsBalanced l
    → IsBalanced r
    → height r ≡ height l + 3
    → (t : Node) × (rotate_left l v r ≡ some t) × Joins l v r t
rotate_left_lem l v terminator bl br tall = absurd (omega arith)
rotate_left_lem l v (node terminator rv rr h) bl (eh, hi, lo, brl, brr) tall = (
  new_node (new_node l v terminator) rv rr,
  ground arith,
  record {
    balanced = (refl, omega arith, omega arith, (refl, omega arith, omega arith, bl, tt), brr);
    same = simp append_assoc;
    above = omega arith;
    below = omega arith;
    exact = inr (inr tall);
  },
)
rotate_left_lem l v (node (node a av b c) rv rr h) bl (eh, hi, lo, (erl, hirl, lorl, ba, bb), brr)
      tall =
    elim (Bool-cases (leb c (height rr))) [
      | inl e ↦
          let le : c ≤ height rr = leb→le c (height rr) e in
          (
            new_node (new_node l v (node a av b c)) rv rr,
            ap
                (λ z.
                  if z
                  then some (new_node (new_node l v (node a av b c)) rv rr)
                  else some (new_node (new_node l v a) av (new_node b rv rr)))
                e,
            record {
              balanced = (
                refl,
                omega arith,
                omega arith,
                (refl, omega arith, omega arith, bl, (erl, hirl, lorl, ba, bb)),
                brr,
              );
              same = simp append_assoc;
              above = omega arith;
              below = omega arith;
              exact = inr (inr tall);
            },
          )
      | inr e ↦
          let lt : height rr < c = lt-of_leb c (height rr) e in
          (
            new_node (new_node l v a) av (new_node b rv rr),
            ap
                (λ z.
                  if z
                  then some (new_node (new_node l v (node a av b c)) rv rr)
                  else some (new_node (new_node l v a) av (new_node b rv rr)))
                e,
            record {
              balanced = (
                refl,
                omega arith,
                omega arith,
                (refl, omega arith, omega arith, bl, ba),
                (refl, omega arith, omega arith, bb, brr),
              );
              same = simp append_assoc;
              above = omega arith;
              below = omega arith;
              exact = inr (inr tall);
            },
          )
    ]

-- Balanced children whose heights differ by 3 at most are joined by balance, with one rotation or
-- none: the result is balanced, keeps the values in their order, and is as high as the higher
-- child or higher by 1.
pub balance_lem :
    (l : Node) (v : Entry) (r : Node)
    → IsBalanced l
    → IsBalanced r
    → height l ≤ height r + 3
    → height r ≤ height l + 3
    → (t : Node) × (balance l v r ≡ some t) × Joins l v r t
unfolding balance
balance_lem l v r bl br left_bound right_bound = elim (Bool-cases (ltb (height r + 2) (height l))) [
  | inl e ↦
      let far = ltb→lt (height r + 2) (height l) e in
      let (t, run, joins) = rotate_right_lem l v r bl br (omega arith) in (t, rw e run, joins)
  | inr e ↦ elim (Bool-cases (ltb (height l + 2) (height r))) [
    | inl f ↦
        let far = ltb→lt (height l + 2) (height r) f in
        let (t, run, joins) = rotate_left_lem l v r bl br (omega arith) in (t, rw (e, f) run, joins)
    | inr f ↦
        let near = le-of_ltb (height r + 2) (height l) e in
        let close = le-of_ltb (height l + 2) (height r) f in
        (
          new_node l v r,
          rw (e, f) refl,
          record {
            balanced = (refl, near, close, bl, br);
            same = refl;
            above = omega arith;
            below = omega arith;
            exact = inl refl;
          },
        )
  ]
]
