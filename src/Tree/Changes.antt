-- ===== src/Tree/Changes.antt =====
-- klee/include/klee/ADT/ImmutableTree.h: an edit keeps the keys ascending, and what is found after it.
use cgs.Prelude.{
  ℕ, ◌<◌, ◌≡◌, ◌≢◌, ap, sym, subst, ◌∙◌, refl, none, some, List, [], ◌∷◌, ◌++◌, append-nil, ◌==◌,
  if◌then◌else◌, All, All-map, ◌⊎◌, front, Bool-cases, inl, inr, arith, ==_iff, ==_self,
}
use cgs.Tree.Node.{Entry}
use cgs.Tree.Order.{IsAscending, edit, find, above_find, tri}

-- No value, or one with the key.
abbrev pub AtMostOne : ℕ → List Entry → Type 0
AtMostOne k zs = (zs ≡ []) ⊎ ((e : Entry) × (zs ≡ e ∷ []) × (e.key ≡ k))

module _ (k : ℕ) (zs ys : List Entry) where
  one_other : (j : ℕ) → AtMostOne k zs → j ≢ k → find j (zs ++ ys) ≡ find j ys
  one_other j (inl e) ne = rw e refl
  one_other j (inr (z, e, at)) ne = rw e (ground arith)

  one_same : AtMostOne k zs → find k ys ≡ none → find k (zs ++ ys) ≡ front zs
  one_same (inl e) h = rw e h
  one_same (inr (z, e, at)) h = rw e (ground arith)

  one_above :
      (b : ℕ) → AtMostOne k zs → b < k → All (λ y. b < y.key) ys → All (λ y. b < y.key) (zs ++ ys)
  one_above b (inl e) lt h = rw e h
  one_above b (inr (z, e, at)) lt h = rw e (omega arith, h)

  one-IsAscending :
      AtMostOne k zs → All (λ y. k < y.key) ys → IsAscending ys → IsAscending (zs ++ ys)
  one-IsAscending (inl e) above h = rw e h
  one-IsAscending (inr (z, e, at)) above h = rw e (rw at above, h)

module _ (k : ℕ) (here : Entry → List Entry) (absent : List Entry) (x : Entry)
    (xs : List Entry) where
  edit_low : k < x.key → edit k here absent (x ∷ xs) ≡ absent ++ x ∷ xs
  edit_low h = ground arith

  edit_high : x.key < k → edit k here absent (x ∷ xs) ≡ x ∷ edit k here absent xs
  edit_high h = ground arith

  edit_same : k ≡ x.key → edit k here absent (x ∷ xs) ≡ here x ++ xs
  edit_same h = ground arith

module _ (k : ℕ) (here : Entry → List Entry) (absent : List Entry)
    (one_here : (x : Entry) → x.key ≡ k → AtMostOne k (here x))
    (one_absent : AtMostOne k absent) where
  above-edit :
      (b : ℕ) (xs : List Entry)
      → b < k
      → All (λ y. b < y.key) xs
      → All (λ y. b < y.key) (edit k here absent xs)
  above-edit b [] lt h =
      subst (All (λ y. b < y.key)) (append-nil absent) (one_above k absent [] b one_absent lt tt)
  above-edit b (x ∷ xs) lt (first, h) = elim (tri k x.key) [
    | inl low ↦
        rw (edit_low k here absent x xs low)
          (one_above k absent (x ∷ xs) b one_absent lt (first, h))
    | inr (inl high) ↦ rw (edit_high k here absent x xs high) (first, above-edit b xs lt h)
    | inr (inr same) ↦
        rw (edit_same k here absent x xs same)
          (one_above k (here x) xs b (one_here x (sym same)) lt h)
  ]

  pub edit-IsAscending : (xs : List Entry) → IsAscending xs → IsAscending (edit k here absent xs)
  edit-IsAscending [] h =
      subst IsAscending (append-nil absent) (one-IsAscending k absent [] one_absent tt tt)
  edit-IsAscending (x ∷ xs) (above, h) = elim (tri k x.key) [
    | inl low ↦ rw (edit_low k here absent x xs low) (
        one-IsAscending k absent (x ∷ xs) one_absent (low, All-map xs (λ y lt. omega arith) above)
          (above, h))
    | inr (inl high) ↦
        rw (edit_high k here absent x xs high)
          (above-edit x.key xs high above, edit-IsAscending xs h)
    | inr (inr same) ↦
        rw (edit_same k here absent x xs same)
          (one-IsAscending k (here x) xs (one_here x (sym same)) (rw same above) h)
  ]

  find-edit_other : (j : ℕ) (xs : List Entry) → j ≢ k → find j (edit k here absent xs) ≡ find j xs
  find-edit_other j [] ne =
      ap (find j) (sym (append-nil absent)) ∙ one_other k absent [] j one_absent ne
  find-edit_other j (x ∷ xs) ne = elim (tri k x.key) [
    | inl low ↦
        ap (find j) (edit_low k here absent x xs low) ∙ one_other k absent (x ∷ xs) j one_absent ne
    | inr (inl high) ↦
        ap (find j) (edit_high k here absent x xs high)
        ∙ ap (λ r. if j == x.key then some x else r) (find-edit_other j xs ne)
    | inr (inr same) ↦
        ap (find j) (edit_same k here absent x xs same)
        ∙ one_other k (here x) xs j (one_here x (sym same)) ne
        ∙ ground arith
  ]

  find-edit_same :
      (xs : List Entry)
      → IsAscending xs
      → find k (edit k here absent xs)
        ≡ elim (find k xs) [ none ↦ front absent | some x ↦ front (here x) ]
  find-edit_same [] h = ap (find k) (sym (append-nil absent)) ∙ one_same k absent [] one_absent refl
  find-edit_same (x ∷ xs) (above, h) = elim (tri k x.key) [
    | inl low ↦
        let gone : find k (x ∷ xs) ≡ none =
          above_find k (x ∷ xs) (low, All-map xs (λ y lt. omega arith) above) in
        ap (find k) (edit_low k here absent x xs low)
        ∙ one_same k absent (x ∷ xs) one_absent gone
        ∙ sym (ap (λ found. elim found [ none ↦ front absent | some y ↦ front (here y) ]) gone)
    | inr (inl high) ↦ ground (arith, find-edit_same xs h)
    | inr (inr same) ↦
        let found : find k (x ∷ xs) ≡ some x = ground arith in
        ap (find k) (edit_same k here absent x xs same)
        ∙ one_same k (here x) xs (one_here x (sym same)) (above_find k xs (rw same above))
        ∙ sym (ap (λ r. elim r [ none ↦ front absent | some y ↦ front (here y) ]) found)
  ]

pub find-edit :
    (k j : ℕ) (here : Entry → List Entry) (absent xs : List Entry)
    → ((x : Entry) → x.key ≡ k → AtMostOne k (here x))
    → AtMostOne k absent
    → IsAscending xs
    → find j (edit k here absent xs) ≡ (
        if j == k
        then elim (find k xs) [ none ↦ front absent | some x ↦ front (here x) ]
        else find j xs)
find-edit k j here absent xs one_here one_absent up = elim (Bool-cases (j == k)) [
  | inl e ↦
      let same : j ≡ k = (==_iff j k).0 e in
      ap (λ i. find i (edit k here absent xs)) same
      ∙ find-edit_same k here absent one_here one_absent xs up
      ∙ sym (
          ap
            (λ b.
              if b
              then elim (find k xs) [ none ↦ front absent | some x ↦ front (here x) ]
              else find j xs)
            e)
  | inr e ↦
      find-edit_other k here absent one_here one_absent j xs (λ q. ground (arith, e, q, ==_self k))
      ∙ sym (
          ap
            (λ b.
              if b
              then elim (find k xs) [ none ↦ front absent | some x ↦ front (here x) ]
              else find j xs)
            e)
]
