-- ===== src/Tree/Ops.antt =====
-- klee/include/klee/ADT/ImmutableTree.h: the operations of ImmutableTree and its Node.
use cgs.Prelude.{ℕ, ◌+◌, true, false, Option, none, some, ltb, ◌>>=◌}
use cgs.Tree.Node.{Entry, Node, terminator, node, new_node, balance}

unfoldable pub size : Node → ℕ
size terminator = 0
size (node l v r h) = size l + 1 + size r

-- The least and the greatest value with the rest. A terminator would give the value it was made with:
-- `none` stands for that.
unfoldable pub pop_min : Node → Option (Entry × Node)
pop_min terminator = none
pop_min (node terminator v r h) = some (v, r)
pop_min (node (node ll lv lr lh) v r h) = do
  popped ← pop_min (node ll lv lr lh)
  t ← balance popped.1 v r
  some (popped.0, t)

unfoldable pub pop_max : Node → Option (Entry × Node)
pop_max terminator = none
pop_max (node l v terminator h) = some (v, l)
pop_max (node l v (node rl rv rr rh) h) = do
  popped ← pop_max (node rl rv rr rh)
  t ← balance l v popped.1
  some (popped.0, t)

unfoldable pub insert : Entry → Node → Option Node
insert e terminator = some (new_node terminator e terminator)
insert e (node l v r h) = elim (ltb e.key v.key) [
  | true ↦ insert e l >>= λ t. balance t v r
  | false ↦ elim (ltb v.key e.key) [
    | true ↦ insert e r >>= λ t. balance l v t
    | false ↦ some (node l v r h)
  ]
]

unfoldable pub replace : Entry → Node → Option Node
replace e terminator = some (new_node terminator e terminator)
replace e (node l v r h) = elim (ltb e.key v.key) [
  | true ↦ replace e l >>= λ t. balance t v r
  | false ↦ elim (ltb v.key e.key) [
    | true ↦ replace e r >>= λ t. balance l v t
    | false ↦ some (new_node l e r)
  ]
]

-- The removal of the value of a node: its place is taken by the least one on its right.
unfoldable pub join : Node → Node → Option Node
join terminator r = some r
join (node ll lv lr lh) terminator = some (node ll lv lr lh)
join (node ll lv lr lh) (node rl rv rr rh) = do
  popped ← pop_min (node rl rv rr rh)
  balance (node ll lv lr lh) popped.0 popped.1

unfoldable pub remove : ℕ → Node → Option Node
remove k terminator = some terminator
remove k (node l v r h) = elim (ltb k v.key) [
  | true ↦ remove k l >>= λ t. balance t v r
  | false ↦ elim (ltb v.key k) [ true ↦ remove k r >>= λ t. balance l v t | false ↦ join l r ]
]

unfoldable pub count_key : ℕ → Node → ℕ
count_key k terminator = 0
count_key k (node l v r h) = elim (ltb k v.key) [
  | true ↦ count_key k l
  | false ↦ elim (ltb v.key k) [ true ↦ count_key k r | false ↦ 1 ]
]

unfoldable pub lookup : ℕ → Node → Option Entry
lookup k terminator = none
lookup k (node l v r h) = elim (ltb k v.key) [
  | true ↦ lookup k l
  | false ↦ elim (ltb v.key k) [ true ↦ lookup k r | false ↦ some v ]
]

-- The first argument is the last node passed to the right.
unfoldable pub previous : Option Entry → ℕ → Node → Option Entry
previous result k terminator = result
previous result k (node l v r h) = elim (ltb k v.key) [
  | true ↦ previous result k l
  | false ↦ elim (ltb v.key k) [ true ↦ previous (some v) k r | false ↦ some v ]
]

abbrev pub lookup_previous : ℕ → Node → Option Entry
lookup_previous k t = previous none k t

unfoldable pub min_value : Node → Option Entry
min_value terminator = none
min_value (node terminator v r h) = some v
min_value (node (node ll lv lr lh) v r h) = min_value (node ll lv lr lh)

unfoldable pub max_value : Node → Option Entry
max_value terminator = none
max_value (node l v terminator h) = some v
max_value (node l v (node rl rv rr rh) h) = max_value (node rl rv rr rh)
