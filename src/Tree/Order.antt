-- ===== src/Tree/Order.antt =====
-- klee/include/klee/ADT/ImmutableTree.h: what the operations do, on the values in ascending order.
use cgs.Prelude.{
  ℕ, ◌≤◌, ◌<◌, ◌≡◌, ◌∙◌, refl, Option, none, some, List, [], ◌∷◌, ◌++◌, append_assoc, ltb, ◌==◌,
  if◌then◌else◌, All, All-map, All-parts, ◌⊎◌, Bool-cases, inl, inr, arith,
}
use cgs.Tree.Node.{Entry}

abbrev pub IsAscending : List Entry → Type 0
IsAscending [] = Unit
IsAscending (x ∷ xs) = All (λ y. x.key < y.key) xs × IsAscending xs

-- The value with the key is replaced by `here` of it; where there is none, `absent` comes in its place.
abbrev pub edit : ℕ → (Entry → List Entry) → List Entry → List Entry → List Entry
edit k here absent [] = absent
edit k here absent (x ∷ xs) =
    if ltb k x.key
    then absent ++ x ∷ xs
    else if ltb x.key k
    then x ∷ edit k here absent xs
    else here x ++ xs

abbrev pub find : ℕ → List Entry → Option Entry
find k [] = none
find k (x ∷ xs) = if k == x.key then some x else find k xs

pub IsAscending-parts :
    (xs : List Entry) (v : Entry) (ys : List Entry)
    → IsAscending (xs ++ v ∷ ys)
    → IsAscending xs × IsAscending ys × All (λ x. x.key < v.key) xs × All (λ y. v.key < y.key) ys
IsAscending-parts [] v ys (above, up) = (tt, up, tt, above)
IsAscending-parts (x ∷ xs) v ys (above, up) =
    let (first, (to_v, _)) = All-parts (λ y. x.key < y.key) xs (v ∷ ys) above in
    let (up_xs, up_ys, low, high) = IsAscending-parts xs v ys up in
    ((first, up_xs), up_ys, (to_v, low), high)

module _ (k : ℕ) (here : Entry → List Entry) (absent : List Entry) where
  pub edit-left :
      (xs : List Entry) (v : Entry) (ys : List Entry)
      → k < v.key
      → edit k here absent (xs ++ v ∷ ys) ≡ edit k here absent xs ++ v ∷ ys
  edit-left [] v ys h = ground arith
  edit-left (x ∷ xs) v ys h = ground (
    arith,
    edit-left xs v ys h,
    append_assoc absent (x ∷ xs) (v ∷ ys),
    append_assoc (here x) xs (v ∷ ys),
  )

  pub edit-right :
      (xs : List Entry) (v : Entry) (ys : List Entry)
      → All (λ x. x.key < v.key) xs
      → v.key < k
      → edit k here absent (xs ++ v ∷ ys) ≡ xs ++ v ∷ edit k here absent ys
  edit-right [] v ys low h = ground arith
  edit-right (x ∷ xs) v ys (lt, low) h = ground (arith, edit-right xs v ys low h)

  pub edit-here :
      (xs : List Entry) (v : Entry) (ys : List Entry)
      → All (λ x. x.key < v.key) xs
      → v.key ≡ k
      → edit k here absent (xs ++ v ∷ ys) ≡ xs ++ here v ++ ys
  edit-here [] v ys low h = ground arith
  edit-here (x ∷ xs) v ys (lt, low) h = ground (arith, edit-here xs v ys low h)

pub above_find : (k : ℕ) (xs : List Entry) → All (λ y. k < y.key) xs → find k xs ≡ none
above_find k [] h = refl
above_find k (x ∷ xs) (lt, h) = ground (arith, above_find k xs h)

pub tri : (a b : ℕ) → (a < b) ⊎ (b < a) ⊎ (a ≡ b)
tri a b = elim (Bool-cases (ltb a b)) [
  | inl e ↦ inl (ground arith)
  | inr e ↦ elim (Bool-cases (ltb b a)) [
    | inl f ↦ inr (inl (ground arith))
    | inr f ↦ inr (inr (ground arith))
  ]
]

pub find-left :
    (k : ℕ) (xs : List Entry) (v : Entry) (ys : List Entry)
    → All (λ y. v.key < y.key) ys
    → k < v.key
    → find k (xs ++ v ∷ ys) ≡ find k xs
find-left k [] v ys high h = ground (arith, above_find k ys (All-map ys (λ y lt. omega arith) high))
find-left k (x ∷ xs) v ys high h = ground (arith, find-left k xs v ys high h)

pub find-right :
    (k : ℕ) (xs : List Entry) (v : Entry) (ys : List Entry)
    → All (λ x. x.key < v.key) xs
    → v.key ≤ k
    → find k (xs ++ v ∷ ys) ≡ (if k == v.key then some v else find k ys)
find-right k [] v ys low h = ground arith
find-right k (x ∷ xs) v ys (lt, low) h = ground (arith, find-right k xs v ys low h)

-- The last value with a key up to a bound, and else the first argument.
abbrev pub last_up_to : Option Entry → ℕ → List Entry → Option Entry
last_up_to result k [] = result
last_up_to result k (x ∷ xs) =
    if ltb k x.key then last_up_to result k xs else last_up_to (some x) k xs

last_up_to-append :
    (result : Option Entry) (k : ℕ) (xs ys : List Entry)
    → last_up_to result k (xs ++ ys) ≡ last_up_to (last_up_to result k xs) k ys
last_up_to-append result k [] ys = refl
last_up_to-append result k (x ∷ xs) ys =
    ground (arith, last_up_to-append result k xs ys, last_up_to-append (some x) k xs ys)

last_up_to-above :
    (result : Option Entry) (k : ℕ) (xs : List Entry)
    → All (λ y. k < y.key) xs
    → last_up_to result k xs ≡ result
last_up_to-above result k [] h = refl
last_up_to-above result k (x ∷ xs) (lt, h) = ground (arith, last_up_to-above result k xs h)

pub last_up_to-left :
    (result : Option Entry) (k : ℕ) (xs : List Entry) (v : Entry) (ys : List Entry)
    → All (λ y. v.key < y.key) ys
    → k < v.key
    → last_up_to result k (xs ++ v ∷ ys) ≡ last_up_to result k xs
last_up_to-left result k xs v ys high h =
    last_up_to-append result k xs (v ∷ ys)
    ∙ last_up_to-above (last_up_to result k xs) k (v ∷ ys)
        (h, All-map ys (λ y lt. omega arith) high)

pub last_up_to-right :
    (result : Option Entry) (k : ℕ) (xs : List Entry) (v : Entry) (ys : List Entry)
    → v.key ≤ k
    → last_up_to result k (xs ++ v ∷ ys) ≡ last_up_to (some v) k ys
last_up_to-right result k xs v ys h = last_up_to-append result k xs (v ∷ ys) ∙ ground arith

pub last_up_to-here :
    (result : Option Entry) (k : ℕ) (xs : List Entry) (v : Entry) (ys : List Entry)
    → All (λ y. v.key < y.key) ys
    → k ≡ v.key
    → last_up_to result k (xs ++ v ∷ ys) ≡ some v
last_up_to-here result k xs v ys high h =
    last_up_to-right result k xs v ys (omega arith)
    ∙ last_up_to-above (some v) k ys (All-map ys (λ y lt. omega arith) high)
