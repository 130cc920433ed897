-- ===== src/Cgs/History.antt =====
-- klee/lib/Core/Searcher.cpp: CGSSearcher::isNewStoreValue over a history of questions.
use cgs.Prelude.{
  ℕ, ◌≡◌, ◌≢◌, refl, ap₂, ◌∙◌, Bool, true, Option, none, some, List, [], ◌∷◌, arith, ==_self,
}
use native.Mathlib.Decide.{ℕ_discrete}
use cgs.Cgs.State.{Program, Memory, put}
use cgs.Cgs.StoreValue.{is_new_value, is_new_store_value, touch_value}
use cgs.Cgs.Caches.{stored, expected, IsCached, is_new_store_value_first, is_new_store_value_later}

-- A question: a state, a branch and a store.
pub record Question : Type 0 where
  pub state : ℕ
  pub bid : ℕ
  pub sid : ℕ

pub answers : Program → List Question → Memory → List Bool
answers prog [] m = []
answers prog (q ∷ qs) m =
    let (a, m') = is_new_store_value prog m q.state q.bid q.sid in a ∷ answers prog qs m'

-- What was seen after a question whose branch had the first value `o`.
abbrev pub see : (ℕ → Option ℕ) → ℕ → ℕ → Option ℕ → ℕ → Option ℕ
see seen bid v none = put seen bid (some v)
see seen bid v (some first) = seen

-- The answers with no caches: all that counts of the past is the first value for each branch.
abbrev pub plain_answer : Program → ℕ → ℕ → Option ℕ → Bool
plain_answer prog bid v none = true
plain_answer prog bid v (some first) = expected prog bid first v

pub plain_answers : Program → (ℕ → Option ℕ) → Memory → List Question → List Bool
plain_answers prog seen m [] = []
plain_answers prog seen m (q ∷ qs) =
    let v = stored m q.state q.sid in
    plain_answer prog q.bid v (seen q.bid) ∷ plain_answers prog (see seen q.bid v (seen q.bid)) m qs

-- What the caches of one branch mean.
abbrev pub Means : Program → Memory → ℕ → Option ℕ → Type 0
Means prog m b none = (m.invalid_store_values b ≡ none) × (m.valid_store_values b ≡ [])
Means prog m b (some first) = IsCached prog m b first

is_new_value-other :
    (prog : Program) (m : Memory) (bid v b : ℕ) (o : Option (List ℕ))
    → b ≢ bid
    → ((is_new_value prog m bid v o).1.invalid_store_values b ≡ m.invalid_store_values b)
      × ((is_new_value prog m bid v o).1.valid_store_values b ≡ m.valid_store_values b)
unfolding is_new_value
is_new_value-other prog m bid v b none n = (ground arith, ground arith)
is_new_value-other prog m bid v b (some bad) n = (ground arith, ground arith)

stored-is_new_store_value :
    (prog : Program) (m : Memory) (p bid sid p' sid' : ℕ)
    → stored (is_new_store_value prog m p bid sid).1 p' sid' ≡ stored m p' sid'
unfolding is_new_store_value is_new_value
stored-is_new_store_value prog m p bid sid p' sid' = ground arith

Means-of_eq :
    (prog : Program) (m m' : Memory) (b : ℕ) (o : Option ℕ)
    → m'.invalid_store_values b ≡ m.invalid_store_values b
    → m'.valid_store_values b ≡ m.valid_store_values b
    → Means prog m b o
    → Means prog m' b o
Means-of_eq prog m m' b none e k h = (e ∙ h.0, k ∙ h.1)
Means-of_eq prog m m' b (some first) e k h = record {
  bad = h.bad;
  found = e ∙ h.found;
  holds_first = h.holds_first;
  rejects = h.rejects;
  accepts = rw k h.accepts;
}

-- One question keeps the meaning of every branch's caches.
Means-asked :
    (prog : Program) (m : Memory) (q : Question) (seen : ℕ → Option ℕ) (o : Option ℕ)
    → seen q.bid ≡ o
    → Means prog m q.bid o
    → Means prog
        (is_new_store_value prog m q.state q.bid q.sid).1
        q.bid
        (see seen q.bid (stored m q.state q.sid) o q.bid)
Means-asked prog m q seen none e h =
    rw (==_self q.bid) (is_new_store_value_first prog m q.state q.sid q.bid h.0 h.1).1
Means-asked prog m q seen (some first) e h =
    rw e (is_new_store_value_later prog m q.state q.sid q.bid first h).1

Means-other :
    (prog : Program) (m : Memory) (q : Question) (b : ℕ) (o : Option ℕ)
    → b ≢ q.bid
    → Means prog m b o
    → Means prog (is_new_store_value prog m q.state q.bid q.sid).1 b o
unfolding is_new_store_value
Means-other prog m q b o n h =
    let v = stored m q.state q.sid in
    let (e, k) =
      is_new_value-other prog (touch_value m q.state q.sid v) q.bid v b
        (m.invalid_store_values q.bid) n in
    Means-of_eq prog m (is_new_store_value prog m q.state q.bid q.sid).1 b o e k h

see_other :
    (seen : ℕ → Option ℕ) (bid v : ℕ) (o : Option ℕ) (b : ℕ) → b ≢ bid → see seen bid v o b ≡ seen b
see_other seen bid v none b n = ground arith
see_other seen bid v (some first) b n = refl

Means-see :
    (prog : Program) (m : Memory) (q : Question) (seen : ℕ → Option ℕ)
    → ((b : ℕ) → Means prog m b (seen b))
    → (b : ℕ)
    → Means prog
        (is_new_store_value prog m q.state q.bid q.sid).1
        b
        (see seen q.bid (stored m q.state q.sid) (seen q.bid) b)
Means-see prog m q seen h b = elim (ℕ_discrete b q.bid) [
  | yes p ↦ rw p (Means-asked prog m q seen (seen q.bid) refl (h q.bid))
  | no n ↦
      rw (see_other seen q.bid (stored m q.state q.sid) (seen q.bid) b n)
        (Means-other prog m q b (seen b) n (h b))
]

answer_plain :
    (prog : Program) (m : Memory) (q : Question) (o : Option ℕ)
    → Means prog m q.bid o
    → (is_new_store_value prog m q.state q.bid q.sid).0
      ≡ plain_answer prog q.bid (stored m q.state q.sid) o
answer_plain prog m q none h = (is_new_store_value_first prog m q.state q.sid q.bid h.0 h.1).0
answer_plain prog m q (some first) h =
    (is_new_store_value_later prog m q.state q.sid q.bid first h).0

answers_agree :
    (prog : Program) (qs : List Question) (m m0 : Memory) (seen : ℕ → Option ℕ)
    → ((b : ℕ) → Means prog m b (seen b))
    → ((p sid : ℕ) → stored m p sid ≡ stored m0 p sid)
    → answers prog qs m ≡ plain_answers prog seen m0 qs
unfolding answers plain_answers
answers_agree prog [] m m0 seen h k = refl
answers_agree prog (q ∷ qs) m m0 seen h k = rw (← k q.state q.sid) (
    ap₂ ◌∷◌ (answer_plain prog m q (seen q.bid) (h q.bid)) (
      answers_agree prog qs _ m0 _ (Means-see prog m q seen h)
        (λ p sid. stored-is_new_store_value prog m q.state q.bid q.sid p sid ∙ k p sid)))

-- From empty caches, for every sequence of questions, isNewStoreValue answers as it would without
-- caches: the first answer for a branch is yes, and a later one is yes exactly if the value
-- differs from the first one and covers a new side of the branch.
pub answers_plain :
    (prog : Program) (qs : List Question) (m : Memory)
    → ((b : ℕ) → m.invalid_store_values b ≡ none)
    → ((b : ℕ) → m.valid_store_values b ≡ [])
    → answers prog qs m ≡ plain_answers prog (λ b. none) m qs
answers_plain prog qs m e k =
    answers_agree prog qs m m (λ b. none) (λ b. (e b, k b)) (λ p sid. refl)
