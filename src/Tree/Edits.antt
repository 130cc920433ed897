-- ===== src/Tree/Edits.antt =====
-- klee/include/klee/ADT/ImmutableTree.h: walking down to a key and back keeps a tree balanced, and
-- does to the values in order what `edit` does.
use cgs.Prelude.{
  ℕ, ◌+◌, ◌≤◌, ◌<◌, ◌≡◌, ◌∙◌, sym, ap, subst, inl, inr, refl, Option, some, List, ◌∷◌, ◌++◌, ◌>>=◌,
  arith,
}
use cgs.Tree.Node.{Entry, Node, terminator, node, height, balance, contents}
use cgs.Tree.Order.{IsAscending, edit, IsAscending-parts, edit-left, edit-right, edit-here, tri}
use cgs.Tree.Balance.{IsBalanced, balance_lem}

-- A result that is balanced, within 1 of a height and with the values given.
pub record Gives (h : ℕ) (values : List Entry) (result : Option Node) : Type 0 where
  pub tree : Node
  pub run : result ≡ some tree
  pub balanced : IsBalanced tree
  pub at_most : height tree ≤ h + 1
  pub at_least : h ≤ height tree + 1
  pub same : contents tree ≡ values

module _ (l : Node) (v : Entry) (r : Node) (h : ℕ) (b : IsBalanced (node l v r h)) where
  left_Gives :
      (values : List Entry) (o : Option Node)
      → Gives (height l) values o
      → Gives h (values ++ v ∷ contents r) (o >>= λ t. balance t v r)
  left_Gives values o g =
      let (eh, hi, lo, bl, br) = b in
      let (t, run, joins) =
        balance_lem g.tree v r g.balanced br (omega (arith, g.at_most))
          (omega (arith, g.at_least)) in
      record {
        tree = t;
        run = rw g.run run;
        balanced = joins.balanced;
        at_most = ground (arith, eh, g.at_most, g.at_least, joins.exact, joins.above, joins.below);
        at_least = ground (arith, eh, g.at_most, g.at_least, joins.exact, joins.above, joins.below);
        same = joins.same ∙ ap (λ xs. xs ++ v ∷ contents r) g.same;
      }

  right_Gives :
      (values : List Entry) (o : Option Node)
      → Gives (height r) values o
      → Gives h (contents l ++ v ∷ values) (o >>= λ t. balance l v t)
  right_Gives values o g =
      let (eh, hi, lo, bl, br) = b in
      let (t, run, joins) =
        balance_lem l v g.tree bl g.balanced (omega (arith, g.at_least))
          (omega (arith, g.at_most)) in
      record {
        tree = t;
        run = rw g.run run;
        balanced = joins.balanced;
        at_most = ground (arith, eh, g.at_most, g.at_least, joins.exact, joins.above, joins.below);
        at_least = ground (arith, eh, g.at_most, g.at_least, joins.exact, joins.above, joins.below);
        same = joins.same ∙ ap (λ xs. contents l ++ v ∷ xs) g.same;
      }

pub Gives-of :
    (h : ℕ) (xs ys : List Entry) (o p : Option Node) → xs ≡ ys → o ≡ p → Gives h xs o → Gives h ys p
Gives-of h xs ys o p e f g = subst (λ q. Gives h ys q) f (subst (λ zs. Gives h zs o) e g)

-- How insert, replace and remove walk down: they differ at a terminator and at a node with the key.
pub record IsEdit (k : ℕ) (here : Entry → List Entry) (absent : List Entry)
    (op : Node → Option Node) : Type 0 where
  pub leaf : Gives 0 absent (op terminator)
  pub low :
      (l : Node) (v : Entry) (r : Node) (h : ℕ)
      → k < v.key
      → op (node l v r h) ≡ (op l >>= λ t. balance t v r)
  pub high :
      (l : Node) (v : Entry) (r : Node) (h : ℕ)
      → v.key < k
      → op (node l v r h) ≡ (op r >>= λ t. balance l v t)
  pub same :
      (l : Node) (v : Entry) (r : Node) (h : ℕ)
      → k ≡ v.key
      → IsBalanced (node l v r h)
      → Gives h (contents l ++ here v ++ contents r) (op (node l v r h))

pub edit-Gives :
    (k : ℕ) (here : Entry → List Entry) (absent : List Entry) (op : Node → Option Node)
    → IsEdit k here absent op
    → (t : Node) → IsBalanced t
    → IsAscending (contents t)
    → Gives (height t) (edit k here absent (contents t)) (op t)
edit-Gives k here absent op w terminator b up = w.leaf
edit-Gives k here absent op w (node l v r h) b up =
    let (up_l, up_r, low, high) = IsAscending-parts (contents l) v (contents r) up in
    let (eh, hi, lo, bl, br) = b in
    elim (tri k v.key) [
      | inl lt ↦
          Gives-of h (edit k here absent (contents l) ++ v ∷ contents r) _
            (op l >>= λ t. balance t v r) _
            (sym (edit-left k here absent (contents l) v (contents r) lt)) (sym (w.low l v r h lt))
            (left_Gives l v r h b _ (op l) (edit-Gives k here absent op w l bl up_l))
      | inr (inl gt) ↦
          Gives-of h (contents l ++ v ∷ edit k here absent (contents r)) _
            (op r >>= λ t. balance l v t) _
            (sym (edit-right k here absent (contents l) v (contents r) low gt))
            (sym (w.high l v r h gt))
            (right_Gives l v r h b _ (op r) (edit-Gives k here absent op w r br up_r))
      | inr (inr e) ↦
          Gives-of h (contents l ++ here v ++ contents r) _ (op (node l v r h)) _
            (sym (edit-here k here absent (contents l) v (contents r) low (sym e))) refl
            (w.same l v r h e b)
    ]
