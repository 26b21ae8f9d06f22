-- ===== src/Intrusive/List/Segments.antt =====
-- Doubly linked nodes between two nodes.
use postboy.Prelude.{
  ℕ, ◌≡◌, ◌≢◌, refl, ap, ◌∙◌, List, [], ◌∷◌, ◌++◌, arith, ◌==◌, true, false, ◌||◌,
}
use postboy.Intrusive.Chain.{mem, Distinct, last, mem-append, mem-last}
use postboy.Intrusive.List.{Links, linked_before, unlink}

-- From `a` the links lead through the nodes to `b`, and back.
abbrev pub Segment : Links → ℕ → List ℕ → ℕ → Type 0
Segment l a [] b = (l.next a ≡ b) × (l.prev b ≡ a)
Segment l a (x ∷ xs) b = (l.next a ≡ x) × (l.prev x ≡ a) × Segment l x xs b

-- Links that differ elsewhere only: a segment rests on `next` of its nodes but the last, and on `prev` of
-- its nodes but the first.
pub Segment-same :
    (l m : Links) (a : ℕ) (xs : List ℕ) (b : ℕ)
    → ((c : ℕ) → mem c (a ∷ xs) ≡ true → m.next c ≡ l.next c)
    → ((c : ℕ) → (mem c xs || (c == b)) ≡ true → m.prev c ≡ l.prev c)
    → Segment l a xs b
    → Segment m a xs b
Segment-same l m a [] b nexts prevs s = (nexts a (ground arith) ∙ s.0, prevs b (ground arith) ∙ s.1)
Segment-same l m a (x ∷ xs) b nexts prevs s = (
  nexts a (ground arith) ∙ s.0,
  prevs x (ground arith) ∙ s.1,
  Segment-same l m x xs b (λ c h. nexts c (ground (arith, h))) (λ c h. prevs c (ground (arith, h)))
      s.2,
)

pub prev-last : (l : Links) (a : ℕ) (xs : List ℕ) (b : ℕ) → Segment l a xs b → l.prev b ≡ last a xs
prev-last l a [] b s = s.1
prev-last l a (x ∷ xs) b s = prev-last l x xs b s.2

-- A node linked before the end of a segment.
pub linked_before-last :
    (l : Links) (node a : ℕ) (xs : List ℕ) (b : ℕ)
    → mem node (a ∷ xs) ≡ false
    → node ≢ b
    → mem b xs ≡ false
    → Distinct (a ∷ xs)
    → Segment l a xs b
    → Segment (linked_before node b l) a (xs ++ (node ∷ [])) b
unfolding linked_before
linked_before-last l node a [] b fresh ne apart d s =
    let before = s.1 in
    (
      ground (arith, before, fresh),
      ground (arith, before, ne),
      (ground (arith, before, fresh), ground (arith, ne)),
    )
linked_before-last l node a (x ∷ xs) b fresh ne apart d s =
    let before = prev-last l x xs b s.2 in
    let there = mem-last x xs in
    let other : a ≢ l.prev b = λ e. ground (arith, e, before, there, d.1) in
    (
      ground (arith, other, fresh, s.0),
      ground (arith, fresh, apart, s.1),
      linked_before-last l node x xs b (ground (arith, fresh)) ne (ground (arith, apart)) d.2 s.2,
    )

-- A node linked before the first.
pub linked_before-first :
    (l : Links) (node h : ℕ) (xs : List ℕ)
    → mem node (h ∷ xs) ≡ false
    → Distinct (h ∷ xs)
    → Segment l h xs h
    → Segment (linked_before node (l.next h) l) h (node ∷ xs) h
unfolding linked_before
linked_before-first l node h [] fresh d s = (
  ground (arith, s, fresh),
  ground (arith, s, fresh),
  (ground (arith, s, fresh), ground (arith, s, fresh)),
)
linked_before-first l node h (x ∷ xs) fresh d s =
    let m = linked_before node (l.next h) l in
    let kept =
      Segment-same l m x xs h (λ c k. ground (arith, k, fresh, d, s))
        (λ c k. ground (arith, k, fresh, d, s)) s.2 in
    (
      ground (arith, s, fresh),
      ground (arith, s, fresh),
      (ground (arith, s, fresh), ground (arith, s, fresh), kept),
    )

-- What stands before and behind a node in the middle.
pub prev-middle :
    (l : Links) (a : ℕ) (xs : List ℕ) (node : ℕ) (ys : List ℕ) (b : ℕ)
    → Segment l a (xs ++ (node ∷ ys)) b
    → l.prev node ≡ last a xs
prev-middle l a [] node ys b s = s.1
prev-middle l a (x ∷ xs) node ys b s = prev-middle l x xs node ys b s.2

pub next-middle :
    (l : Links) (a : ℕ) (xs : List ℕ) (node : ℕ) (ys : List ℕ) (b : ℕ)
    → Segment l a (xs ++ (node ∷ ys)) b
    → (mem (l.next node) ys || (l.next node == b)) ≡ true
next-middle l a [] node [] b s = ground (arith, s)
next-middle l a [] node (y ∷ ys) b s = ground (arith, s)
next-middle l a (x ∷ xs) node ys b s = next-middle l x xs node ys b s.2

-- A node unlinked from the middle.
pub unlink-Segment :
    (l : Links) (node a : ℕ) (xs ys : List ℕ) (b : ℕ)
    → a ≢ 0
    → b ≢ 0
    → Distinct (a ∷ (xs ++ (node ∷ ys)))
    → mem b (xs ++ (node ∷ ys)) ≡ false
    → Segment l a (xs ++ (node ∷ ys)) b
    → Segment (unlink node l) a (xs ++ ys) b
unfolding unlink
unlink-Segment l node a [] [] b a0 b0 d out s =
    (ground (arith, s, d, a0, b0, out), ground (arith, s, d, a0, b0, out))
unlink-Segment l node a [] (y ∷ ys) b a0 b0 d out s =
    let kept =
      Segment-same l (unlink node l) y ys b (λ c k. ground (arith, s, d, a0, k))
        (λ c k. ground (arith, s, d, out, a0, k)) s.2.2 in
    (ground (arith, s, d, a0), ground (arith, s, d, a0), kept)
unlink-Segment l node a (x ∷ xs) ys b a0 b0 d out s =
    let before = prev-middle l x xs node ys b s.2 in
    let there = mem-last x xs in
    let behind = next-middle l x xs node ys b s.2 in
    let far = mem-append a xs (node ∷ ys) in
    let near = mem-append x xs (node ∷ ys) in
    let other : a ≢ l.prev node = λ e. ground (arith, e, before, there, far, d.1) in
    let apart : x ≢ l.next node = λ e. ground (arith, e, behind, near, d.2.1, out) in
    (
      ground (arith, s.0, other, far, d.1),
      ground (arith, s.1, apart, near, d.2.1),
      unlink-Segment l node x xs ys b d.2.0 b0 d.2 (ground (arith, out)) s.2,
    )

pub front-prev : (l : Links) (h : ℕ) (xs : List ℕ) → Segment l h xs h → l.prev (l.next h) ≡ h
front-prev l h [] s = ap l.prev s.0 ∙ s.1
front-prev l h (x ∷ xs) s = ap l.prev s.0 ∙ s.1

pub Distinct-last :
    (xs : List ℕ) (node : ℕ)
    → Distinct xs
    → node ≢ 0
    → mem node xs ≡ false
    → Distinct (xs ++ (node ∷ []))
Distinct-last [] node d ne fresh = (ne, refl, tt)
Distinct-last (x ∷ xs) node d ne fresh =
    let at = mem-append x xs (node ∷ []) in
    (d.0, ground (arith, at, d.1, fresh), Distinct-last xs node d.2 ne (ground (arith, fresh)))

pub Distinct-less :
    (xs : List ℕ) (node : ℕ) (ys : List ℕ) → Distinct (xs ++ (node ∷ ys)) → Distinct (xs ++ ys)
Distinct-less [] node ys d = d.2
Distinct-less (x ∷ xs) node ys d =
    let at = mem-append x xs (node ∷ ys) in
    let at' = mem-append x xs ys in
    (d.0, ground (arith, d.1, at, at'), Distinct-less xs node ys d.2)

-- The last node and those before it; 0 stands for none.
abbrev pub final : List ℕ → ℕ
final [] = 0
final (x ∷ xs) = last x xs

abbrev pub but_last : List ℕ → List ℕ
but_last [] = []
but_last (x ∷ []) = []
but_last (x ∷ y ∷ ys) = x ∷ but_last (y ∷ ys)

pub snoc_lem : (x : ℕ) (xs : List ℕ) → x ∷ xs ≡ but_last (x ∷ xs) ++ (last x xs ∷ [])
snoc_lem x [] = refl
snoc_lem x (y ∷ ys) = ap (λ t. x ∷ t) (snoc_lem y ys)
