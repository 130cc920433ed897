-- ===== src/Tree/Lookup.antt =====
-- klee/include/klee/ADT/ImmutableTree.h: what a lookup finds, also after a change.
use cgs.Prelude.{
  ℕ, ◌≡◌, ◌∙◌, sym, ap, subst, inl, inr, refl, Option, none, some, List, [], ◌∷◌, ◌==◌,
  if◌then◌else◌, lt→ltb, front, arith,
}
use cgs.Tree.Node.{Entry, Node, terminator, node, height, contents}
use cgs.Tree.Ops.{insert, replace, remove, count_key, lookup, previous, lookup_previous}
use cgs.Tree.Order.{IsAscending, edit, find, IsAscending-parts, tri}
use cgs.Tree.Changes.{AtMostOne, edit-IsAscending, find-edit}
use cgs.Tree.Balance.{IsBalanced}
use cgs.Tree.Edits.{Gives}
use cgs.Tree.Removal.{edits_Gives}
use cgs.Tree.Order.{
  find-left, find-right, last_up_to, last_up_to-left, last_up_to-right, last_up_to-here,
}

-- A result that is balanced with ascending keys, and what a lookup of j finds in it: at the key of
-- the change `found` of what was there or `absent`, and elsewhere what was there.
pub record Reads (k : ℕ) (found : Entry → Option Entry) (absent : Option Entry) (t : Node)
    (result : Option Node) (j : ℕ) : Type 0 where
  pub tree : Node
  pub run : result ≡ some tree
  pub balanced : IsBalanced tree
  pub ascending : IsAscending (contents tree)
  pub reads :
      lookup j tree
      ≡ (if j == k then elim (lookup k t) [ none ↦ absent | some x ↦ found x ] else lookup j t)

lookup-find : (k : ℕ) (t : Node) → IsAscending (contents t) → lookup k t ≡ find k (contents t)
unfolding lookup
lookup-find k terminator up = refl
lookup-find k (node l v r h) up =
    let (up_l, up_r, low, high) = IsAscending-parts (contents l) v (contents r) up in
    elim (tri k v.key) [
      | inl lt ↦ ground (
        arith,
        lt→ltb k v.key lt,
        lookup-find k l up_l,
        find-left k (contents l) v (contents r) high lt,
      )
      | inr (inl gt) ↦ ground (
        arith,
        lt→ltb v.key k gt,
        lookup-find k r up_r,
        find-right k (contents l) v (contents r) low (omega arith),
      )
      | inr (inr e) ↦ ground (arith, find-right k (contents l) v (contents r) low (omega arith))
    ]

count_key-lookup : (k : ℕ) (t : Node) → count_key k t ≡ elim (lookup k t) [ none ↦ 0 | some e ↦ 1 ]
unfolding count_key lookup
count_key-lookup k terminator = refl
count_key-lookup k (node l v r h) = ground (arith, count_key-lookup k l, count_key-lookup k r)

previous_lem :
    (result : Option Entry) (k : ℕ) (t : Node)
    → IsAscending (contents t)
    → previous result k t ≡ last_up_to result k (contents t)
unfolding previous
previous_lem result k terminator up = refl
previous_lem result k (node l v r h) up =
    let (up_l, up_r, low, high) = IsAscending-parts (contents l) v (contents r) up in
    elim (tri k v.key) [
      | inl lt ↦ ground (
        arith,
        lt→ltb k v.key lt,
        previous_lem result k l up_l,
        last_up_to-left result k (contents l) v (contents r) high lt,
      )
      | inr (inl gt) ↦ ground (
        arith,
        lt→ltb v.key k gt,
        previous_lem (some v) k r up_r,
        last_up_to-right result k (contents l) v (contents r) (omega arith),
      )
      | inr (inr e) ↦ ground (arith, last_up_to-here result k (contents l) v (contents r) high e)
    ]

-- In a tree with ascending keys lookup finds the value with the key, count tells whether there is
-- one, and lookup_previous finds the last one whose key is not greater.
pub lookups_lem :
    (k : ℕ) (t : Node)
    → IsAscending (contents t)
    → (lookup k t ≡ find k (contents t))
      × (count_key k t ≡ elim (find k (contents t)) [ none ↦ 0 | some e ↦ 1 ])
      × (lookup_previous k t ≡ last_up_to none k (contents t))
lookups_lem k t up = (
  lookup-find k t up,
  count_key-lookup k t ∙ ap (λ found. elim found [ none ↦ 0 | some e ↦ 1 ]) (lookup-find k t up),
  previous_lem none k t up,
)

lookup-Gives :
    (k j : ℕ) (here : Entry → List Entry) (absent : List Entry) (t : Node) (result : Option Node)
    → ((x : Entry) → x.key ≡ k → AtMostOne k (here x))
    → AtMostOne k absent
    → IsAscending (contents t)
    → (g : Gives (height t) (edit k here absent (contents t)) result)
    → Reads k (λ x. front (here x)) (front absent) t result j
lookup-Gives k j here absent t result one_here one_absent up g =
    let again : IsAscending (contents g.tree) =
      subst IsAscending (sym g.same)
        (edit-IsAscending k here absent one_here one_absent (contents t) up) in
    record {
      tree = g.tree;
      run = g.run;
      balanced = g.balanced;
      ascending = again;
      reads =
          lookup-find j g.tree again
          ∙ ap (find j) g.same
          ∙ find-edit k j here absent (contents t) one_here one_absent up
          ∙ rw (lookup-find k t up, lookup-find j t up) refl;
    }

-- After inserting, replacing and removing by a key on a balanced tree with ascending keys, which
-- succeed and give such a tree, a lookup of that key finds the value that was there and else the
-- new one, the new one, and nothing; a lookup of another key finds what it found before.
pub lookup-edits :
    (e : Entry) (t : Node) (j : ℕ)
    → IsBalanced t
    → IsAscending (contents t)
    → Reads e.key (λ x. some x) (some e) t (insert e t) j
      × Reads e.key (λ x. some e) (some e) t (replace e t) j
      × Reads e.key (λ x. none) none t (remove e.key t) j
lookup-edits e t j b up =
    let (inserted, replaced, removed) = edits_Gives e t b up in
    let new : AtMostOne e.key (e ∷ []) = inr (e, refl, refl) in
    (
      lookup-Gives e.key j (λ x. x ∷ []) (e ∷ []) t (insert e t) (λ x at. inr (x, refl, at)) new up
          inserted,
      lookup-Gives e.key j (λ x. e ∷ []) (e ∷ []) t (replace e t) (λ x at. new) new up replaced,
      lookup-Gives e.key j (λ x. []) [] t (remove e.key t) (λ x at. inl refl) (inl refl) up removed,
    )
