-- ===== src/Tree/Removal.antt =====
-- klee/include/klee/ADT/ImmutableTree.h: insert, replace and remove, with popMin for the removal.
use cgs.Prelude.{
  ℕ, ◌≡◌, ◌∙◌, sym, ap, refl, some, List, [], ◌∷◌, ◌++◌, append_assoc, append-nil, lt→ltb, arith,
}
use cgs.Tree.Node.{Entry, Node, terminator, node, height, new_node, contents}
use cgs.Tree.Ops.{insert, replace, join, remove}
use cgs.Tree.Order.{IsAscending, edit}
use cgs.Tree.Balance.{IsBalanced, balance_lem}
use cgs.Tree.Pops.{least_Pops}
use cgs.Tree.Edits.{Gives, Gives-of, IsEdit, edit-Gives}

new_leaf : (e : Entry) → Gives 0 (e ∷ []) (some (new_node terminator e terminator))
new_leaf e = record {
  tree = new_node terminator e terminator;
  run = refl;
  balanced = (refl, omega arith, omega arith, tt, tt);
  at_most = omega arith;
  at_least = omega arith;
  same = refl;
}

insert-IsEdit : (e : Entry) → IsEdit e.key (λ x. x ∷ []) (e ∷ []) (insert e)
unfolding insert
insert-IsEdit e = record {
  leaf = new_leaf e;
  low = λ l v r h lt. ground (arith, lt→ltb e.key v.key lt);
  high = λ l v r h lt. ground (arith, lt→ltb v.key e.key lt);
  same = λ l v r h eq b. record {
    tree = node l v r h;
    run = ground arith;
    balanced = b;
    at_most = omega arith;
    at_least = omega arith;
    same = simp append_assoc;
  };
}

replace-IsEdit : (e : Entry) → IsEdit e.key (λ x. e ∷ []) (e ∷ []) (replace e)
unfolding replace
replace-IsEdit e = record {
  leaf = new_leaf e;
  low = λ l v r h lt. ground (arith, lt→ltb e.key v.key lt);
  high = λ l v r h lt. ground (arith, lt→ltb v.key e.key lt);
  same = λ l v r h eq (eh, hi, lo, bl, br). record {
    tree = new_node l e r;
    run = ground arith;
    balanced = (refl, hi, lo, bl, br);
    at_most = omega arith;
    at_least = omega arith;
    same = simp append_assoc;
  };
}

join-Gives :
    (l : Node) (v : Entry) (r : Node) (h : ℕ)
    → IsBalanced (node l v r h)
    → Gives h (contents l ++ contents r) (join l r)
unfolding join
join-Gives terminator v r h (eh, hi, lo, bl, br) = record {
  tree = r;
  run = refl;
  balanced = br;
  at_most = omega arith;
  at_least = omega arith;
  same = ground arith;
}
join-Gives (node a av b c) v terminator h (eh, hi, lo, bl, br) = record {
  tree = node a av b c;
  run = refl;
  balanced = bl;
  at_most = omega arith;
  at_least = omega arith;
  same = sym (append-nil (contents (node a av b c)));
}
join-Gives (node a av b c) v (node ra rv rb rc) h (eh, hi, lo, bl, br) =
    let p = least_Pops ra rv rb rc br in
    let (t, run, joins) =
      balance_lem (node a av b c) p.popped p.tree bl p.balanced (omega (arith, p.at_least))
        (omega (arith, p.at_most)) in
    record {
      tree = t;
      run = rw (p.run, run) refl;
      balanced = joins.balanced;
      at_most = ground (arith, p.at_most, p.at_least, joins.exact, joins.above, joins.below);
      at_least = ground (arith, p.at_most, p.at_least, joins.exact, joins.above, joins.below);
      same = joins.same ∙ ap (λ xs. contents (node a av b c) ++ xs) p.same;
    }

nil_between : (xs ys : List Entry) → xs ++ ys ≡ xs ++ [] ++ ys
nil_between xs ys = ap (λ z. z ++ ys) (sym (append-nil xs))

join-remove :
    (k : ℕ) (l : Node) (v : Entry) (r : Node) (h : ℕ)
    → k ≡ v.key
    → join l r ≡ remove k (node l v r h)
unfolding remove
join-remove k l v r h e = ground arith

remove-IsEdit : (k : ℕ) → IsEdit k (λ x. []) [] (remove k)
unfolding remove
remove-IsEdit k = record {
  leaf = record {
    tree = terminator;
    run = refl;
    balanced = tt;
    at_most = omega arith;
    at_least = omega arith;
    same = refl;
  };
  low = λ l v r h lt. ground (arith, lt→ltb k v.key lt);
  high = λ l v r h lt. ground (arith, lt→ltb v.key k lt);
  same = λ l v r h eq b.
      Gives-of h (contents l ++ contents r) (contents l ++ [] ++ contents r) (join l r) _
        (nil_between (contents l) (contents r)) (join-remove k l v r h eq) (join-Gives l v r h b);
}

-- On a balanced tree with ascending keys insert, replace and remove succeed, keep it balanced and
-- its height within 1, and change its values in order: insert adds a value whose key is not there,
-- replace puts it in either way, and remove takes the one with the key away.
pub edits_Gives :
    (e : Entry) (t : Node)
    → IsBalanced t
    → IsAscending (contents t)
    → Gives (height t) (edit e.key (λ x. x ∷ []) (e ∷ []) (contents t)) (insert e t)
      × Gives (height t) (edit e.key (λ x. e ∷ []) (e ∷ []) (contents t)) (replace e t)
      × Gives (height t) (edit e.key (λ x. []) [] (contents t)) (remove e.key t)
edits_Gives e t b up = (
  edit-Gives e.key (λ x. x ∷ []) (e ∷ []) (insert e) (insert-IsEdit e) t b up,
  edit-Gives e.key (λ x. e ∷ []) (e ∷ []) (replace e) (replace-IsEdit e) t b up,
  edit-Gives e.key (λ x. []) [] (remove e.key) (remove-IsEdit e.key) t b up,
)
