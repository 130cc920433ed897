-- ===== src/Solver/Halving.antt =====
-- klee/lib/Solver/Solver.cpp: the binary searches of getRange find where an answer changes.
use cgs.Prelude.{
  ℕ, zero, suc, ◌+◌, ◌-◌, ◌/◌, ◌^◌, ◌<◌, ◌≤◌, ◌≡◌, ◌⊎◌, inl, inr, refl, subst, Bool, true, false,
  Option, some, ltb, Bool-cases, arith,
}
use cgs.Solver.Range.{halve}

two-pow : (n : ℕ) → 2 ^ suc n ≡ 2 ^ n + 2 ^ n
two-pow n = omega arith

module _ (ask : ℕ → Option Bool) (Yes No : ℕ → Type 0) where
  -- A yes at k has the one meaning, a no the other, and there is an answer.
  abbrev pub Answers : ℕ → Type 0
  Answers k = ((ask k ≡ some true) × Yes k) ⊎ ((ask k ≡ some false) × No k)

  -- The result has a yes, and the number below it a no, if it is above the lower end.
  abbrev pub Found : ℕ → ℕ → ℕ → Type 0
  Found lo hi r = (lo ≤ r) × (r ≤ hi) × Yes r × ((r ≡ lo) ⊎ ((lo < r) × No (r - 1)))

  at_end : (lo hi : ℕ) → lo ≤ hi → hi ≤ lo → Yes hi → Found lo hi lo
  at_end lo hi le ge top =
      let same : hi ≡ lo = omega arith in (omega arith, le, subst Yes same top, inl refl)

  lower_half : (lo mid hi r : ℕ) → mid ≤ hi → Found lo mid r → Found lo hi r
  lower_half lo mid hi r le (above, below, y, split) = (above, omega arith, y, split)

  upper_half : (lo mid hi r : ℕ) → lo ≤ mid → No mid → Found (suc mid) hi r → Found lo hi r
  upper_half lo mid hi r le n (above, below, y, inl e) =
      let before : mid ≡ r - 1 = omega arith in
      (omega arith, below, y, inr (omega arith, subst No before n))
  upper_half lo mid hi r le n (above, below, y, inr (lt, m)) =
      (omega arith, below, y, inr (omega arith, m))

  -- A binary search of getRange ends after as many halvings as the difference of its ends has
  -- bits; where every question is answered and the upper end is a yes, it gives a number that is a
  -- yes and is the lower end or follows a no.
  pub halve_lem :
      (n lo hi : ℕ)
      → ((k : ℕ) → Answers k)
      → lo ≤ hi
      → hi - lo < 2 ^ n
      → Yes hi
      → (r : ℕ) × (halve n ask lo hi ≡ some r) × Found lo hi r
  unfolding halve
  halve_lem zero lo hi answers le enough top =
      (lo, ground arith, at_end lo hi le (ground arith) top)
  halve_lem (suc n) lo hi answers le enough top =
      let mid = lo + (hi - lo) / 2 in
      elim (Bool-cases (ltb lo hi)) [
        | inr e ↦ (lo, ground arith, at_end lo hi le (ground arith) top)
        | inl e ↦ elim (answers mid) [
          | inl (said, y) ↦
              let (r, run, found) =
                halve_lem n lo mid answers (ground arith) (ground (arith, two-pow n)) y in
              (r, ground (arith, e, said, run), lower_half lo mid hi r (ground arith) found)
          | inr (said, y) ↦
              let (r, run, found) =
                halve_lem n (suc mid) hi answers (ground arith) (ground (arith, two-pow n)) top in
              (r, ground (arith, e, said, run), upper_half lo mid hi r (ground arith) y found)
        ]
      ]
