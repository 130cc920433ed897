-- ===== src/Tree/Tests.antt =====
-- klee/include/klee/ADT/ImmutableTree.h: a tree with three values, and one that an insertion turns.
use cgs.Prelude.{ℕ, ◌+◌, ◌/◌, ◌^◌, ◌≤◌, ◌≡◌, refl, none, some, [], ◌∷◌, arith}
use cgs.Tree.Node.{Entry, Node, terminator, node, height, new_node, balance, contents}
use cgs.Tree.Ops.{
  size, pop_min, pop_max, insert, replace, remove, count_key, lookup, lookup_previous,
}
use cgs.Tree.Order.{IsAscending, edit, find, last_up_to}
use cgs.Tree.Balance.{IsBalanced, Joins, balance_lem}
use cgs.Tree.Edits.{Gives}
use cgs.Tree.Removal.{edits_Gives}
use cgs.Tree.Pops.{Pops, PopsLast, pops_lem}
use cgs.Tree.Lookup.{Reads, lookups_lem, lookup-edits}
use cgs.Tree.Ends.{size-height}

abbrev entry : ℕ → Entry
entry k = record { key = k; payload = k + 100 }

abbrev single : ℕ → Node
single k = new_node terminator (entry k) terminator

abbrev three : Node
three = new_node (single 2) (entry 4) (single 6)

three-IsBalanced : IsBalanced three
three-IsBalanced = (
  refl,
  omega arith,
  omega arith,
  (refl, omega arith, omega arith, tt, tt),
  (refl, omega arith, omega arith, tt, tt),
)

three-IsAscending : IsAscending (contents three)
three-IsAscending = ((omega arith, (omega arith, tt)), ((omega arith, tt), (tt, tt)))

-- Ascending insertions: the fourth one makes the right side too high.
abbrev chain : Node
chain = node terminator (entry 1) (node terminator (entry 2) (single 3) 2) 3

abbrev turned : Node
turned = new_node (single 1) (entry 2) (new_node terminator (entry 3) (single 4))

turned_run : insert (entry 4) chain ≡ some turned
unfolding insert balance
turned_run = refl

edits_Gives_example :
    Gives
      (height three)
      (edit 5 (λ x. x ∷ []) (entry 5 ∷ []) (contents three))
      (insert (entry 5) three)
    × Gives
        (height three)
        (edit 5 (λ x. entry 5 ∷ []) (entry 5 ∷ []) (contents three))
        (replace (entry 5) three)
    × Gives (height three) (edit 5 (λ x. []) [] (contents three)) (remove 5 three)
edits_Gives_example = edits_Gives (entry 5) three three-IsBalanced three-IsAscending

pops_lem_example :
    Pops 2 (contents three) (pop_min three) × PopsLast 2 (contents three) (pop_max three)
pops_lem_example = pops_lem (single 2) (entry 4) (single 6) 2 three-IsBalanced

lookups_lem_example :
    (lookup 5 three ≡ find 5 (contents three))
    × (count_key 5 three ≡ elim (find 5 (contents three)) [ none ↦ 0 | some e ↦ 1 ])
    × (lookup_previous 5 three ≡ last_up_to none 5 (contents three))
lookups_lem_example = lookups_lem 5 three three-IsAscending

lookup-edits_example :
    Reads 4 (λ x. some x) (some (entry 4)) three (insert (entry 4) three) 6
    × Reads 4 (λ x. some (entry 4)) (some (entry 4)) three (replace (entry 4) three) 6
    × Reads 4 (λ x. none) none three (remove 4 three) 6
lookup-edits_example = lookup-edits (entry 4) three 6 three-IsBalanced three-IsAscending

size-height_example : 2 ^ (height three / 3) ≤ size three + 1
size-height_example = size-height three three-IsBalanced

-- The right side is too high, and its left child higher than its right one.
abbrev zigzag : Node
zigzag = new_node (new_node terminator (entry 2) (single 3)) (entry 4) (single 5)

zigzag-IsBalanced : IsBalanced zigzag
zigzag-IsBalanced = (
  refl,
  omega arith,
  omega arith,
  (refl, omega arith, omega arith, tt, (refl, omega arith, omega arith, tt, tt)),
  (refl, omega arith, omega arith, tt, tt),
)

balance_lem_example :
    (t : Node) × (balance terminator (entry 1) zigzag ≡ some t)
    × Joins terminator (entry 1) zigzag t
balance_lem_example =
    balance_lem terminator (entry 1) zigzag tt zigzag-IsBalanced (omega arith) (omega arith)
