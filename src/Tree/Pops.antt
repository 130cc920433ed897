-- ===== src/Tree/Pops.antt =====
-- klee/include/klee/ADT/ImmutableTree.h: popMin and popMax.
use cgs.Prelude.{
  ℕ, ◌+◌, ◌≤◌, ◌≡◌, ◌∙◌, ap, refl, Option, some, List, [], ◌∷◌, ◌++◌, append_assoc, arith,
}
use cgs.Tree.Node.{Entry, Node, terminator, node, height, contents}
use cgs.Tree.Ops.{pop_min, pop_max}
use cgs.Tree.Balance.{IsBalanced, balance_lem}

-- The least value comes off a node, and the rest is as in Gives.
pub record Pops (h : ℕ) (values : List Entry) (result : Option (Entry × Node)) : Type 0 where
  pub popped : Entry
  pub tree : Node
  pub run : result ≡ some (popped, tree)
  pub balanced : IsBalanced tree
  pub at_most : height tree ≤ h
  pub at_least : h ≤ height tree + 1
  pub same : popped ∷ contents tree ≡ values

pub record PopsLast (h : ℕ) (values : List Entry) (result : Option (Entry × Node)) : Type 0 where
  pub popped : Entry
  pub tree : Node
  pub run : result ≡ some (popped, tree)
  pub balanced : IsBalanced tree
  pub at_most : height tree ≤ h
  pub at_least : h ≤ height tree + 1
  pub same : contents tree ++ popped ∷ [] ≡ values

pub least_Pops :
    (l : Node) (v : Entry) (r : Node) (h : ℕ)
    → IsBalanced (node l v r h)
    → Pops h (contents l ++ v ∷ contents r) (pop_min (node l v r h))
unfolding pop_min
least_Pops terminator v r h (eh, hi, lo, bl, br) = record {
  popped = v;
  tree = r;
  run = refl;
  balanced = br;
  at_most = omega arith;
  at_least = omega arith;
  same = ground arith;
}
least_Pops (node a av b c) v r h (eh, hi, lo, bl, br) =
    let p = least_Pops a av b c bl in
    let (t, run, joins) =
      balance_lem p.tree v r p.balanced br (omega (arith, p.at_most)) (omega (arith, p.at_least)) in
    record {
      popped = p.popped;
      tree = t;
      run = rw (p.run, run) refl;
      balanced = joins.balanced;
      at_most = ground (arith, p.at_most, p.at_least, joins.exact, joins.above, joins.below);
      at_least = ground (arith, p.at_most, p.at_least, joins.exact, joins.above, joins.below);
      same = ap (λ xs. p.popped ∷ xs) joins.same ∙ ap (λ xs. xs ++ v ∷ contents r) p.same;
    }

greatest_Pops :
    (l : Node) (v : Entry) (r : Node) (h : ℕ)
    → IsBalanced (node l v r h)
    → PopsLast h (contents l ++ v ∷ contents r) (pop_max (node l v r h))
unfolding pop_max
greatest_Pops l v terminator h (eh, hi, lo, bl, br) = record {
  popped = v;
  tree = l;
  run = refl;
  balanced = bl;
  at_most = omega arith;
  at_least = omega arith;
  same = refl;
}
greatest_Pops l v (node a av b c) h (eh, hi, lo, bl, br) =
    let p = greatest_Pops a av b c br in
    let (t, run, joins) =
      balance_lem l v p.tree bl p.balanced (omega (arith, p.at_least)) (omega (arith, p.at_most)) in
    record {
      popped = p.popped;
      tree = t;
      run = rw (p.run, run) refl;
      balanced = joins.balanced;
      at_most = ground (arith, p.at_most, p.at_least, joins.exact, joins.above, joins.below);
      at_least = ground (arith, p.at_most, p.at_least, joins.exact, joins.above, joins.below);
      same =
          ap (λ xs. xs ++ p.popped ∷ []) joins.same
          ∙ append_assoc (contents l) (v ∷ contents p.tree) (p.popped ∷ [])
          ∙ ap (λ xs. contents l ++ v ∷ xs) p.same;
    }

-- From a balanced tree that is not empty popMin takes the first value and popMax the last one;
-- what is left is balanced, and as high as before or lower by 1.
pub pops_lem :
    (l : Node) (v : Entry) (r : Node) (h : ℕ)
    → IsBalanced (node l v r h)
    → Pops h (contents (node l v r h)) (pop_min (node l v r h))
      × PopsLast h (contents (node l v r h)) (pop_max (node l v r h))
pops_lem l v r h b = (least_Pops l v r h b, greatest_Pops l v r h b)
