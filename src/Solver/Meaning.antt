-- ===== src/Solver/Meaning.antt =====
-- klee/include/klee/Solver/IncompleteSolver.h: what the answers of a solver mean, and that a solver in
-- two stages answers as it is to.
use cgs.Prelude.{◌≡◌, ◌∙◌, sym, ap, refl, Bool, true, false, not, some}
use cgs.Solver.Query.{Validity, is_true, is_false, is_unknown}
use cgs.Solver.Partial.{
  PartialValidity, must_true, must_false, may_true, may_false, true_or_false, no_answer,
  ConstrainedQuery, ExprOps, negate_partial_validity, is_no_answer, negated_query,
}

unflip : (a b : Bool) → not a ≡ b → a ≡ not b
unflip true b h = ap not h
unflip false b h = ap not h

module _ {C E : Type 0} (ops : ExprOps C E) {M : C → Type 0}
    (holds : E → (c : C) → M c → Bool) where
  -- createIsZero negates, and equal entries are the same query.
  pub record ExprLaws : Type 0 where
    pub holds-create_is_zero :
        (e : E) (c : C) (m : M c) → holds (ops.create_is_zero e) c m ≡ not (holds e c m)
    pub same_query-eq : (a b : ConstrainedQuery C E) → ops.same_query a b ≡ true → a ≡ b

  abbrev pub AllModels : Bool → ConstrainedQuery C E → Type 0
  AllModels b q = (m : M q.constraints) → holds q.expr q.constraints m ≡ b

  abbrev pub SomeModel : Bool → ConstrainedQuery C E → Type 0
  SomeModel b q = (m : M q.constraints) × (holds q.expr q.constraints m ≡ b)

  abbrev pub Means : PartialValidity → ConstrainedQuery C E → Type 0
  Means must_true q = AllModels true q
  Means must_false q = AllModels false q
  Means may_true q = SomeModel true q
  Means may_false q = SomeModel false q
  Means true_or_false q = SomeModel true q × SomeModel false q
  Means no_answer q = Unit

  abbrev pub MeansValidity : Validity → ConstrainedQuery C E → Type 0
  MeansValidity is_true q = AllModels true q
  MeansValidity is_false q = AllModels false q
  MeansValidity is_unknown q = SomeModel true q × SomeModel false q

  abbrev pub MeansTruth : Bool → ConstrainedQuery C E → Type 0
  MeansTruth true q = AllModels true q
  MeansTruth false q = SomeModel false q

  module _ (laws : ExprLaws) where
    pub all_negated :
        (b : Bool) (q : ConstrainedQuery C E)
        → AllModels b (negated_query ops q)
        → AllModels (not b) q
    all_negated b q h m =
        unflip (holds q.expr q.constraints m) b
          (sym (laws.holds-create_is_zero q.expr q.constraints m) ∙ h m)

    pub some_negated :
        (b : Bool) (q : ConstrainedQuery C E)
        → SomeModel b (negated_query ops q)
        → SomeModel (not b) q
    some_negated b q (m, h) = (
      m,
      unflip (holds q.expr q.constraints m) b
          (sym (laws.holds-create_is_zero q.expr q.constraints m) ∙ h),
    )

    negated_all :
        (b : Bool) (q : ConstrainedQuery C E)
        → AllModels b q
        → AllModels (not b) (negated_query ops q)
    negated_all b q h m = laws.holds-create_is_zero q.expr q.constraints m ∙ ap not (h m)

    negated_some :
        (b : Bool) (q : ConstrainedQuery C E)
        → SomeModel b q
        → SomeModel (not b) (negated_query ops q)
    negated_some b q (m, h) = (m, laws.holds-create_is_zero q.expr q.constraints m ∙ ap not h)

    -- The negation of an answer, which there is one but for None, is one to the negated question.
    pub Means-negate :
        (pv : PartialValidity) (q : ConstrainedQuery C E)
        → Means pv q
        → is_no_answer pv ≡ false
        → (pv' : PartialValidity) × (negate_partial_validity pv ≡ some pv')
          × Means pv' (negated_query ops q)
          × (is_no_answer pv' ≡ false)
    unfolding negate_partial_validity
    Means-negate must_true q h k = (must_false, refl, negated_all true q h, refl)
    Means-negate must_false q h k = (must_true, refl, negated_all false q h, refl)
    Means-negate may_true q h k = (may_false, refl, negated_some true q h, refl)
    Means-negate may_false q h k = (may_true, refl, negated_some false q h, refl)
    Means-negate true_or_false q (h, i) k =
        (true_or_false, refl, (negated_some false q i, negated_some true q h), refl)
    Means-negate no_answer q h k = cc

    pub negate-Means :
        (pv : PartialValidity) (q : ConstrainedQuery C E)
        → Means pv (negated_query ops q)
        → is_no_answer pv ≡ false
        → (pv' : PartialValidity) × (negate_partial_validity pv ≡ some pv')
          × Means pv' q
          × (is_no_answer pv' ≡ false)
    unfolding negate_partial_validity
    negate-Means must_true q h k = (must_false, refl, all_negated true q h, refl)
    negate-Means must_false q h k = (must_true, refl, all_negated false q h, refl)
    negate-Means may_true q h k = (may_false, refl, some_negated true q h, refl)
    negate-Means may_false q h k = (may_true, refl, some_negated false q h, refl)
    negate-Means true_or_false q (h, i) k =
        (true_or_false, refl, (some_negated false q i, some_negated true q h), refl)
    negate-Means no_answer q h k = cc
