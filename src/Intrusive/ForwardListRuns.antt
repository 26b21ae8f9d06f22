-- ===== src/Intrusive/ForwardListRuns.antt =====
-- Runs of pushes and pops on a forward list.
use postboy.Prelude.{ℕ, ◌≡◌, ◌≢◌, refl, ap₂, List, [], ◌∷◌, ◌++◌, false}
use postboy.Intrusive.Chain.{mem}
use postboy.Intrusive.ForwardList.{State, push_back, push_front, pop_front}
use postboy.Intrusive.ForwardListOrder.{
  IsList, first, rest, push_back-IsList, push_front-IsList, pop_front-IsList,
}

-- What callers do with a list: push an unlinked node at either end, or pop.
pub data Operation : Type 0 where
  push_last push_first : ℕ → Operation
  pop_first : Operation

abbrev pub perform : Operation → State → ℕ × State
perform (push_last node) s = (0, push_back node s)
perform (push_first node) s = (0, push_front node s)
perform pop_first s = pop_front s

abbrev pub perform_all : List Operation → State → List ℕ × State
perform_all [] s = ([], s)
perform_all (o ∷ os) s =
    let (out, s') = perform o s in let (outs, t) = perform_all os s' in (out ∷ outs, t)

-- The same on a sequence.
abbrev pub expected : Operation → List ℕ → ℕ × List ℕ
expected (push_last node) xs = (0, xs ++ (node ∷ []))
expected (push_first node) xs = (0, node ∷ xs)
expected pop_first xs = (first xs, rest xs)

abbrev pub expected_all : List Operation → List ℕ → List ℕ × List ℕ
expected_all [] xs = ([], xs)
expected_all (o ∷ os) xs =
    let (out, ys) = expected o xs in let (outs, zs) = expected_all os ys in (out ∷ outs, zs)

-- A node is pushed only while it is in no list.
abbrev pub Allowed : Operation → List ℕ → Type 0
Allowed (push_last node) xs = (node ≢ 0) × (mem node xs ≡ false)
Allowed (push_first node) xs = (node ≢ 0) × (mem node xs ≡ false)
Allowed pop_first xs = Unit {0}

abbrev pub AllAllowed : List Operation → List ℕ → Type 0
AllAllowed [] xs = Unit {0}
AllAllowed (o ∷ os) xs = Allowed o xs × AllAllowed os (expected o xs).1

perform-IsList :
    (o : Operation) (s : State) (xs : List ℕ)
    → IsList s xs
    → Allowed o xs
    → ((perform o s).0 ≡ (expected o xs).0) × IsList (perform o s).1 (expected o xs).1
perform-IsList (push_last node) s xs is ok = (refl, push_back-IsList node s xs ok.0 ok.1 is)
perform-IsList (push_first node) s xs is ok = (refl, push_front-IsList node s xs ok.0 ok.1 is)
perform-IsList pop_first s xs is ok = pop_front-IsList s xs is

-- From a list that stands for a sequence, any run of PushBack, PushFront and PopFront pops what the
-- sequence would and ends in a list that stands for what is left, when no node is pushed that is in
-- the list.
perform_all_refines :
    (os : List Operation) (s : State) (xs : List ℕ)
    → IsList s xs
    → AllAllowed os xs
    → ((perform_all os s).0 ≡ (expected_all os xs).0)
      × IsList (perform_all os s).1 (expected_all os xs).1
perform_all_refines [] s xs is ok = (refl, is)
perform_all_refines (o ∷ os) s xs is ok =
    let (out, is') = perform-IsList o s xs is ok.0 in
    let (outs, end) = perform_all_refines os (perform o s).1 (expected o xs).1 is' ok.1 in
    (ap₂ ◌∷◌ out outs, end)
