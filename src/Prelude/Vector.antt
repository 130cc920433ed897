-- ===== src/Prelude/Vector.antt =====
-- `std::vector` and `std::deque` of pointers or identifiers, with `std::find` and `erase`.
use Prim.Native.Nat.{ℕ, ◌+◌, ◌-◌, ◌<◌}
use mathlib.Core.Path.{◌≡◌, refl}
use mathlib.Core.Bool.{Bool, true, false}
use mathlib.Core.List.{List, [], ◌∷◌, ◌++◌}
use mathlib.Core.Option.{Option, none, some}
use native.Mathlib.Omega.{arith}
use cgs.Prelude.Tests.{◌==◌, if◌then◌else◌}

-- `find(begin, end, x) != end`
abbrev pub mem : ℕ → List ℕ → Bool
mem x [] = false
mem x (y ∷ ys) = if x == y then true else mem x ys

-- `erase(find(begin, end, x))`, where `x` occurs; elsewhere the list itself.
abbrev pub erase_first : ℕ → List ℕ → List ℕ
erase_first x [] = []
erase_first x (y ∷ ys) = if x == y then ys else y ∷ erase_first x ys

-- `erase(find(begin, end, x))`, undefined at the end iterator.
abbrev pub erase_found : ℕ → List ℕ → Option (List ℕ)
erase_found x xs = if mem x xs then some (erase_first x xs) else none

abbrev pub push_back {ℓ} : {A : Type ℓ} → List A → A → List A
push_back xs x = xs ++ x ∷ []

-- `back()`, undefined on an empty vector.
abbrev pub back {ℓ} : {A : Type ℓ} → List A → Option A
back [] = none
back (x ∷ []) = some x
back (x ∷ y ∷ ys) = back (y ∷ ys)

abbrev pub pop_back {ℓ} : {A : Type ℓ} → List A → List A
pop_back [] = []
pop_back (x ∷ []) = []
pop_back (x ∷ y ∷ ys) = x ∷ pop_back (y ∷ ys)

-- `front()`, undefined on an empty vector.
abbrev pub front {ℓ} : {A : Type ℓ} → List A → Option A
front [] = none
front (x ∷ xs) = some x

-- How often a value occurs: two vectors with the same counts hold the same pointers.
abbrev pub count : ℕ → List ℕ → ℕ
count x [] = 0
count x (y ∷ ys) = (if x == y then 1 else 0) + count x ys

pub count-append : (x : ℕ) (xs ys : List ℕ) → count x (xs ++ ys) ≡ count x xs + count x ys
count-append x [] ys = omega arith
count-append x (y ∷ xs) ys = omega (arith, count-append x xs ys)

pub count-mem : (x : ℕ) (xs : List ℕ) → mem x xs ≡ true → 0 < count x xs
count-mem x [] h = cc
count-mem x (y ∷ ys) h = ground (arith, count-mem x ys)

pub count-not_mem : (x : ℕ) (xs : List ℕ) → mem x xs ≡ false → count x xs ≡ 0
count-not_mem x [] h = refl
count-not_mem x (y ∷ ys) h = ground (arith, count-not_mem x ys)

pub mem-of_count : (x : ℕ) (xs : List ℕ) → 0 < count x xs → mem x xs ≡ true
mem-of_count x [] h = absurd (omega arith)
mem-of_count x (y ∷ ys) h = ground (arith, mem-of_count x ys)

pub count-erase_first :
    (x y : ℕ) (ys : List ℕ) → count x (erase_first y ys) ≡ count x ys - (if x == y then 1 else 0)
count-erase_first x y [] = ground arith
count-erase_first x y (z ∷ zs) = ground (arith, count-erase_first x y zs)

pub count-back_pop :
    (x y : ℕ) (ys : List ℕ)
    → back ys ≡ some y
    → count x ys ≡ count x (pop_back ys) + (if x == y then 1 else 0)
count-back_pop x y [] h = cc
count-back_pop x y (z ∷ []) h = ground arith
count-back_pop x y (z ∷ w ∷ ws) h = ground (arith, count-back_pop x y (w ∷ ws))

-- `push_back` after `append`.
pub count-push_back :
    (x y : ℕ) (ys : List ℕ) → count x (push_back ys y) ≡ count x ys + (if x == y then 1 else 0)
count-push_back x y [] = ground arith
count-push_back x y (z ∷ zs) = ground (arith, count-push_back x y zs)

pub back-push_back {ℓ} : {A : Type ℓ} (xs : List A) (x : A) → back (push_back xs x) ≡ some x
back-push_back [] x = refl
back-push_back (y ∷ []) x = refl
back-push_back (y ∷ z ∷ zs) x = back-push_back (z ∷ zs) x

pub mem-append : (x : ℕ) (xs ys : List ℕ) → mem x (xs ++ ys) ≡ (if mem x xs then true else mem x ys)
mem-append x [] ys = refl
mem-append x (y ∷ xs) ys = ground (arith, mem-append x xs ys)

pub ruleset counts = (arith, count-append, count-erase_first, count-push_back)
