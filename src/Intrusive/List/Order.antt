-- ===== src/Intrusive/List/Order.antt =====
-- The doubly linked list stands for a sequence of nodes.
use postboy.Prelude.{
  ℕ, ◌≡◌, ◌≢◌, refl, ap, subst, Option, none, some, List, [], ◌∷◌, ◌++◌, append-nil, arith, ◌==◌,
  true, false, ℕ_discrete,
}
use postboy.Intrusive.Chain.{mem, Distinct, last, mem-append, mem-last}
use postboy.Intrusive.ForwardListOrder.{first, rest}
use postboy.Intrusive.List.{
  Links, is_linked, linked_before, unlink, is_empty, push_back, push_front, pop_front, pop_back,
}
use postboy.Intrusive.List.Segments.{
  Segment, final, but_last, prev-last, linked_before-last, linked_before-first, unlink-Segment,
  prev-middle, front-prev, Distinct-last, Distinct-less, snoc_lem,
}

-- The links of a list with this sentinel: every node that is in no list has no links.
pub record IsList (h : ℕ) (l : Links) (xs : List ℕ) : Type 0 where
  pub distinct : Distinct (h ∷ xs)
  pub ring : Segment l h xs h
  pub others : (c : ℕ) → mem c (h ∷ xs) ≡ false → l.next c ≡ 0

push_back-IsList :
    (h node : ℕ) (l : Links) (xs : List ℕ)
    → node ≢ 0
    → mem node (h ∷ xs) ≡ false
    → IsList h l xs
    → (m : Links) × (push_back h node l ≡ some m) × IsList h m (xs ++ (node ∷ []))
unfolding push_back linked_before
push_back-IsList h node l xs ne fresh v =
    let free : is_linked node l ≡ false = ground (arith, v.others node fresh) in
    rw free (
      linked_before node h l,
      refl,
      record {
        distinct = Distinct-last (h ∷ xs) node v.distinct ne fresh;
        ring =
            linked_before-last l node h xs h fresh (ground (arith, fresh)) v.distinct.1 v.distinct
              v.ring;
        others = λ c k.
            let end = prev-last l h xs h v.ring in
            let there = mem-last h xs in
            let at = mem-append c xs (node ∷ []) in
            let kept = v.others c (ground (arith, k, at)) in
            let apart : l.prev h ≢ c = λ e. ground (arith, e, end, there, k, at) in
            ground (arith, k, at, apart, kept);
      },
    )

push_front-IsList :
    (h node : ℕ) (l : Links) (xs : List ℕ)
    → node ≢ 0
    → mem node (h ∷ xs) ≡ false
    → IsList h l xs
    → (m : Links) × (push_front h node l ≡ some m) × IsList h m (node ∷ xs)
unfolding push_front linked_before
push_front-IsList h node l xs ne fresh v =
    let free : is_linked node l ≡ false = ground (arith, v.others node fresh) in
    let d = v.distinct in
    rw free (
      linked_before node (l.next h) l,
      refl,
      record {
        distinct = (d.0, ground (arith, d.1, fresh), (ne, ground (arith, fresh), d.2));
        ring = linked_before-first l node h xs fresh d v.ring;
        others = λ c k.
            let at_head = front-prev l h xs v.ring in
            let kept = v.others c (ground (arith, k)) in ground (arith, k, at_head, kept);
      },
    )

pub unlink-IsList :
    (h node : ℕ) (l : Links) (xs ys : List ℕ)
    → IsList h l (xs ++ (node ∷ ys))
    → IsList h (unlink node l) (xs ++ ys)
unfolding unlink
unlink-IsList h node l xs ys v =
    let d = v.distinct in
    record {
      distinct = Distinct-less (h ∷ xs) node ys d;
      ring = unlink-Segment l node h xs ys h d.0 d.0 d d.1 v.ring;
      others = λ c k.
          let before = prev-middle l h xs node ys h v.ring in
          let there = mem-last h xs in
          let here = mem-append c xs ys in
          let here' = mem-append c xs (node ∷ ys) in
          let apart : l.prev node ≢ c = λ e. ground (arith, e, before, there, k, here) in
          elim (ℕ_discrete node c) [
            | yes e ↦ let same : (node == c) ≡ true = ground (arith, e) in rw same refl
            | no ne ↦
                let kept = v.others c (ground (arith, k, here, here', ne)) in
                ground (arith, ne, apart, kept)
          ];
    }

pop_front-IsList :
    (h : ℕ) (l : Links) (xs : List ℕ)
    → IsList h l xs
    → ((pop_front h l).0 ≡ first xs) × IsList h (pop_front h l).1 (rest xs)
unfolding pop_front
pop_front-IsList h l [] v =
    let empty : is_empty h l ≡ true = ground (arith, v.ring.0) in rw empty (refl, v)
pop_front-IsList h l (x ∷ xs) v =
    let at = v.ring.0 in
    let full : is_empty h l ≡ false = ground (arith, at, v.distinct.1) in
    rw (full, at) (refl, unlink-IsList h x l [] xs v)

pop_back-IsList :
    (h : ℕ) (l : Links) (xs : List ℕ)
    → IsList h l xs
    → ((pop_back h l).0 ≡ final xs) × IsList h (pop_back h l).1 (but_last xs)
unfolding pop_back
pop_back-IsList h l [] v =
    let empty : is_empty h l ≡ true = ground (arith, v.ring.0) in rw empty (refl, v)
pop_back-IsList h l (x ∷ xs) v =
    let full : is_empty h l ≡ false = ground (arith, v.ring.0, v.distinct.1) in
    let at = prev-last l h (x ∷ xs) h v.ring in
    let init = but_last (x ∷ xs) in
    rw (full, at)
      (
        refl,
        subst (IsList h (unlink (last x xs) l)) (append-nil init)
            (unlink-IsList h (last x xs) l init [] (subst (IsList h l) (snoc_lem x xs) v)),
      )

-- Pushing a node at either end, or popping; a pop gives the node.
pub data ListOperation : Type 0 where
  push_last push_first : ℕ → ListOperation
  pop_first pop_last : ListOperation

abbrev pub pushed : Option Links → Option (ℕ × Links)
pushed none = none
pushed (some l) = some (0, l)

abbrev pub perform : ℕ → ListOperation → Links → Option (ℕ × Links)
perform h (push_last node) l = pushed (push_back h node l)
perform h (push_first node) l = pushed (push_front h node l)
perform h pop_first l = some (pop_front h l)
perform h pop_last l = some (pop_back h l)

-- The same on a sequence.
abbrev pub expected : ListOperation → List ℕ → ℕ × List ℕ
expected (push_last node) xs = (0, xs ++ (node ∷ []))
expected (push_first node) xs = (0, node ∷ xs)
expected pop_first xs = (first xs, rest xs)
expected pop_last xs = (final xs, but_last xs)

abbrev pub Allowed : ℕ → ListOperation → List ℕ → Type 0
Allowed h (push_last node) xs = (node ≢ 0) × (mem node (h ∷ xs) ≡ false)
Allowed h (push_first node) xs = (node ≢ 0) × (mem node (h ∷ xs) ≡ false)
Allowed h pop_first xs = Unit {0}
Allowed h pop_last xs = Unit {0}

-- A run of operations with what it gives and leaves; it ends at a failed VERIFY.
pub data Performed (h : ℕ) : List ListOperation → Links → List ℕ → Links → Type 0 where
  none_left : (l : Links) → Performed h [] l [] l
  one_more :
      (o : ListOperation) (os : List ListOperation) (l m n : Links) (out : ℕ) (outs : List ℕ)
      → perform h o l ≡ some (out, m)
      → Performed h os m outs n
      → Performed h (o ∷ os) l (out ∷ outs) n

abbrev pub expected_all : List ListOperation → List ℕ → List ℕ × List ℕ
expected_all [] xs = ([], xs)
expected_all (o ∷ os) xs =
    let (out, ys) = expected o xs in let (outs, zs) = expected_all os ys in (out ∷ outs, zs)

abbrev pub AllAllowed : ℕ → List ListOperation → List ℕ → Type 0
AllAllowed h [] xs = Unit {0}
AllAllowed h (o ∷ os) xs = Allowed h o xs × AllAllowed h os (expected o xs).1

perform-IsList :
    (h : ℕ) (o : ListOperation) (l : Links) (xs : List ℕ)
    → IsList h l xs
    → Allowed h o xs
    → (m : Links) × (perform h o l ≡ some ((expected o xs).0, m)) × IsList h m (expected o xs).1
perform-IsList h (push_last node) l xs v ok =
    let (m, done, is) = push_back-IsList h node l xs ok.0 ok.1 v in (m, ap pushed done, is)
perform-IsList h (push_first node) l xs v ok =
    let (m, done, is) = push_front-IsList h node l xs ok.0 ok.1 v in (m, ap pushed done, is)
perform-IsList h pop_first l xs v ok =
    let (out, is) = pop_front-IsList h l xs v in
    ((pop_front h l).1, ap (λ t. some (t, (pop_front h l).1)) out, is)
perform-IsList h pop_last l xs v ok =
    let (out, is) = pop_back-IsList h l xs v in
    ((pop_back h l).1, ap (λ t. some (t, (pop_back h l).1)) out, is)

-- From a list that stands for a sequence, any run of PushBack, PushFront, PopFront and PopBack fails no
-- VERIFY, pops what the sequence would and ends in a list that stands for what is left, when no node is
-- pushed that is in the list or is its sentinel.
pub perform-deque :
    (h : ℕ) (os : List ListOperation) (l : Links) (xs : List ℕ)
    → IsList h l xs
    → AllAllowed h os xs
    → (m : Links) × Performed h os l (expected_all os xs).0 m × IsList h m (expected_all os xs).1
perform-deque h [] l xs v ok = (l, none_left l, v)
perform-deque h (o ∷ os) l xs v ok =
    let (m, done, is) = perform-IsList h o l xs v ok.0 in
    let (n, later, end) = perform-deque h os m (expected o xs).1 is ok.1 in
    (n, one_more o os l m n (expected o xs).0 (expected_all os (expected o xs).1).0 done later, end)
