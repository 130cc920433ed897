-- ===== src/Tree/Node.antt =====
-- klee/include/klee/ADT/ImmutableTree.h: class Node. A key is a number and the comparison is `<`, as
-- for memory objects, which klee/lib/Core/AddressSpace.cpp orders by their addresses. Nodes never
-- change, so that sharing and counts of references do not show.
use cgs.Prelude.{
  ℕ, ◌+◌, max, Bool, true, false, Option, none, some, List, [], ◌∷◌, ◌++◌, ltb, leb, if◌then◌else◌,
}

-- A value with the key that key_of_value gives.
pub record Entry : Type 0 where
  pub key : ℕ
  pub payload : ℕ

pub data Node : Type 0 where
  terminator : Node
  node : Node → Entry → Node → ℕ → Node

abbrev pub height : Node → ℕ
height terminator = 0
height (node l v r h) = h

abbrev pub is_terminator : Node → Bool
is_terminator terminator = true
is_terminator (node l v r h) = false

-- Node::Node(left, right, value)
abbrev pub new_node : Node → Entry → Node → Node
new_node l v r = node l v r (max (height l) (height r) + 1)

-- The two rotations to the right and to the left. A terminator is its own child, and has no value:
-- `none` stands for a use of that value.
abbrev pub rotate_right : Node → Entry → Node → Option Node
rotate_right terminator v r = none
rotate_right (node ll lv terminator h) v r =
    if leb 0 (height ll) then some (new_node ll lv (new_node terminator v r)) else none
rotate_right (node ll lv (node lrl lrv lrr lrh) h) v r =
    if leb lrh (height ll)
    then some (new_node ll lv (new_node (node lrl lrv lrr lrh) v r))
    else some (new_node (new_node ll lv lrl) lrv (new_node lrr v r))

abbrev pub rotate_left : Node → Entry → Node → Option Node
rotate_left l v terminator = none
rotate_left l v (node terminator rv rr h) =
    if leb 0 (height rr) then some (new_node (new_node l v terminator) rv rr) else none
rotate_left l v (node (node rll rlv rlr rlh) rv rr h) =
    if leb rlh (height rr)
    then some (new_node (new_node l v (node rll rlv rlr rlh)) rv rr)
    else some (new_node (new_node l v rll) rlv (new_node rlr rv rr))

unfoldable pub balance : Node → Entry → Node → Option Node
balance l v r =
    if ltb (height r + 2) (height l)
    then rotate_right l v r
    else if ltb (height l + 2) (height r)
    then rotate_left l v r
    else some (new_node l v r)

-- The values in their order.
abbrev pub contents : Node → List Entry
contents terminator = []
contents (node l v r h) = contents l ++ v ∷ contents r
