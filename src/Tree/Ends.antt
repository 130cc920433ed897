-- ===== src/Tree/Ends.antt =====
-- klee/include/klee/ADT/ImmutableTree.h: size, min and max, and how high a balanced tree is.
use cgs.Prelude.{
  ℕ, suc, ◌+◌, ◌*◌, ◌/◌, ◌^◌, ◌≤◌, ◌≡◌, ◌∙◌, refl, sym, List, [], ◌∷◌, ◌++◌, length, length-append,
  front, back, arith,
}
use native.Mathlib.Nat.{pow-le-pow_right}
use cgs.Tree.Node.{Entry, Node, terminator, node, height, contents}
use cgs.Tree.Ops.{size, min_value, max_value}
use cgs.Tree.Balance.{IsBalanced}

size-contents : (t : Node) → size t ≡ length (contents t)
unfolding size
size-contents terminator = refl
size-contents (node l v r h) =
    ground (arith, size-contents l, size-contents r, length-append (contents l) (v ∷ contents r))

front-append :
    (xs : List Entry) (v : Entry) (ys zs : List Entry)
    → front ((xs ++ v ∷ ys) ++ zs) ≡ front (xs ++ v ∷ ys)
front-append [] v ys zs = refl
front-append (x ∷ xs) v ys zs = refl

min_value-contents : (t : Node) → min_value t ≡ front (contents t)
unfolding min_value
min_value-contents terminator = refl
min_value-contents (node terminator v r h) = refl
min_value-contents (node (node a av b c) v r h) =
    min_value-contents (node a av b c)
    ∙ sym (front-append (contents a) av (contents b) (v ∷ contents r))

back-append : (xs : List Entry) (v : Entry) (ys : List Entry) → back (xs ++ v ∷ ys) ≡ back (v ∷ ys)
back-append [] v ys = refl
back-append (x ∷ []) v ys = refl
back-append (x ∷ y ∷ xs) v ys = back-append (y ∷ xs) v ys

back-cons :
    (v : Entry) (xs : List Entry) (w : Entry) (ys : List Entry)
    → back (v ∷ (xs ++ w ∷ ys)) ≡ back (xs ++ w ∷ ys)
back-cons v [] w ys = refl
back-cons v (x ∷ xs) w ys = refl

max_value-contents : (t : Node) → max_value t ≡ back (contents t)
unfolding max_value
max_value-contents terminator = refl
max_value-contents (node l v terminator h) = sym (back-append (contents l) v [])
max_value-contents (node l v (node a av b c) h) =
    max_value-contents (node a av b c)
    ∙ sym (back-cons v (contents a) av (contents b))
    ∙ sym (back-append (contents l) v (contents a ++ av ∷ contents b))

-- size counts the values of a tree, and min and max are the first and the last one, if there is
-- one.
pub ends_lem :
    (t : Node)
    → (size t ≡ length (contents t))
      × (min_value t ≡ front (contents t))
      × (max_value t ≡ back (contents t))
ends_lem t = (size-contents t, min_value-contents t, max_value-contents t)

third : (a b : ℕ) → a ≤ b + 3 → a / 3 ≤ b / 3 + 1
third a b h = omega arith

doubled : (a b n : ℕ) → a ≤ b + 3 → 2 ^ (b / 3) ≤ n → 2 ^ (a / 3) ≤ 2 * n
doubled a b n h k =
    let step : 2 ^ (a / 3) ≤ 2 ^ suc (b / 3) =
      pow-le-pow_right (omega arith) (omega (arith, third a b h)) in
    omega (arith, step, k)

-- The height of a balanced tree is logarithmic in its size: 2 to the power of a third of the
-- height, rounded down, is at most the size and 1.
pub size-height : (t : Node) → IsBalanced t → 2 ^ (height t / 3) ≤ size t + 1
unfolding size
size-height terminator b = omega arith
size-height (node l v r h) (eh, hi, lo, bl, br) =
    let left = doubled h (height l) (size l + 1) (omega arith) (size-height l bl) in
    let right = doubled h (height r) (size r + 1) (omega arith) (size-height r br) in
    omega (arith, left, right)
