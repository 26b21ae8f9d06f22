-- ===== src/Intrusive/ForwardListOrder.antt =====
-- The forward list stands for a sequence of nodes.
use postboy.Prelude.{
  ℕ, suc, ◌+◌, ◌-◌, ◌%◌, ◌^◌, ◌≡◌, ◌≢◌, refl, ap, sym, subst, ◌∙◌, some, List, [], ◌∷◌, ◌++◌, arith,
  length, length-append, ◌==◌, true, false,
}
use postboy.Intrusive.Chain.{
  Store, assign, mem, Distinct, Chain, last, Apart, last-append, mem-last, Chain-same, Chain-append,
  Distinct-append,
}
use postboy.Intrusive.ForwardList.{
  ForwardList, State, forward_list, reset, is_empty, push_back, push_front, pop_front, append,
  handed, for_each,
}

-- The last node's link is free: no operation but ForEach follows it.
abbrev pub IsList : State → List ℕ → Type 0
IsList (next, l) [] = (l.head ≡ 0) × (l.size ≡ 0)
IsList (next, l) (x ∷ xs) =
    (l.head ≡ x)
    × (l.tail ≡ last x xs)
    × (l.size ≡ suc (length xs) % 2 ^ 64)
    × Chain next x xs
    × Distinct (x ∷ xs)

pub push_back-IsList :
    (node : ℕ) (s : State) (xs : List ℕ)
    → node ≢ 0
    → mem node xs ≡ false
    → IsList s xs
    → IsList (push_back node s) (xs ++ (node ∷ []))
unfolding push_back
push_back-IsList node (next, l) [] ne fresh is =
    let empty : is_empty l ≡ true = ground arith in
    rw empty (refl, refl, ground arith, tt, (ne, refl, tt))
push_back-IsList node (next, l) (x ∷ xs) ne fresh is =
    let (head, tail, size, chain, distinct) = is in
    let full : is_empty l ≡ false = ground arith in
    let linked = assign (assign next node 0) l.tail node in
    let apart : Apart (x ∷ xs) (node ∷ []) = λ a m. ground (arith, fresh, m) in
    let kept = Chain-same next linked x xs (λ a m ne. ground (arith, apart a m)) distinct chain in
    rw full (
      head,
      sym (last-append x xs node []),
      omega (arith, size, length-append xs (node ∷ [])),
      Chain-append linked x xs node [] kept (ground arith) tt,
      Distinct-append (x ∷ xs) (node ∷ []) distinct (ne, refl, tt) apart,
    )

push_front-full :
    (node : ℕ) (next : Store) (l : ForwardList)
    → is_empty l ≡ false
    → push_front node (next, l)
      ≡ (assign next node l.head, forward_list node l.tail ((l.size + 1) % 2 ^ 64))
unfolding push_front
push_front-full node next l full = rw full refl

pub push_front-IsList :
    (node : ℕ) (s : State) (xs : List ℕ)
    → node ≢ 0
    → mem node xs ≡ false
    → IsList s xs
    → IsList (push_front node s) (node ∷ xs)
unfolding push_front
push_front-IsList node (next, l) [] ne fresh is =
    let empty : is_empty l ≡ true = ground arith in
    rw empty (refl, refl, ground arith, tt, (ne, refl, tt))
push_front-IsList node (next, l) (x ∷ xs) ne fresh is =
    let (head, tail, size, chain, distinct) = is in
    let full : is_empty l ≡ false = ground arith in
    let linked = assign next node l.head in
    let kept = Chain-same next linked x xs (λ a m out. ground (arith, fresh, m)) distinct chain in
    let same : linked node ≡ x = ground (arith, head) in
    subst (λ s. IsList s (node ∷ x ∷ xs)) (sym (push_front-full node next l full))
      (refl, tail, omega (arith, size), (same, kept), (ne, fresh, distinct))

pop_front-empty :
    (next : Store) (l : ForwardList) → l.head ≡ 0 → pop_front (next, l) ≡ (0, (next, l))
unfolding pop_front
pop_front-empty next l e = let empty : is_empty l ≡ true = ground arith in rw empty refl

pop_front-one :
    (next : Store) (l : ForwardList)
    → is_empty l ≡ false
    → l.tail ≡ l.head
    → pop_front (next, l)
      ≡ (l.head, (assign next l.head 0, forward_list 0 0 ((l.size + (2 ^ 64 - 1)) % 2 ^ 64)))
unfolding pop_front
pop_front-one next l full e =
    let same : (l.head == l.tail) ≡ true = ground (arith, e) in rw (full, same) refl

pop_front-more :
    (next : Store) (l : ForwardList)
    → is_empty l ≡ false
    → l.tail ≢ l.head
    → pop_front (next, l) ≡ (
      l.head,
      (assign next l.head 0, forward_list (next l.head) l.tail ((l.size + (2 ^ 64 - 1)) % 2 ^ 64)),
    )
unfolding pop_front
pop_front-more next l full ne =
    let apart : (l.head == l.tail) ≡ false = ground (arith, ne) in rw (full, apart) refl

-- The first node and the others; 0 stands for none.
abbrev pub first : List ℕ → ℕ
first [] = 0
first (x ∷ xs) = x

abbrev pub rest : List ℕ → List ℕ
rest [] = []
rest (x ∷ xs) = xs

pub pop_front-IsList :
    (s : State) (xs : List ℕ)
    → IsList s xs
    → let (out, s') = pop_front s in (out ≡ first xs) × IsList s' (rest xs)
pop_front-IsList (next, l) [] is =
    subst (λ o. (o.0 ≡ 0) × IsList o.1 []) (sym (pop_front-empty next l is.0)) (refl, is)
pop_front-IsList (next, l) (x ∷ []) is =
    let (head, tail, size, chain, distinct) = is in
    let full : is_empty l ≡ false = ground (arith, head, distinct.0) in
    subst (λ o. (o.0 ≡ x) × IsList o.1 []) (sym (pop_front-one next l full (tail ∙ sym head)))
      (head, (refl, omega (arith, size)))
pop_front-IsList (next, l) (x ∷ y ∷ ys) is =
    let (head, tail, size, chain, distinct) = is in
    let full : is_empty l ≡ false = ground (arith, head, distinct.0) in
    let end = mem-last y ys in
    let ne : l.tail ≢ l.head = λ e. ground (arith, tail, head, distinct.1, end, e) in
    let cleared = assign next l.head 0 in
    let kept =
      Chain-same next cleared y ys (λ a m out. ground (arith, head, distinct.1, m)) distinct.2
        chain.1 in
    subst (λ o. (o.0 ≡ x) × IsList o.1 (y ∷ ys)) (sym (pop_front-more next l full ne))
      (head, (ap next head ∙ chain.0, tail, omega (arith, size), kept, distinct.2))

append-full :
    (next : Store) (l that : ForwardList)
    → is_empty l ≡ false
    → append next l that ≡ (
      assign next l.tail that.head,
      forward_list l.head that.tail ((l.size + that.size) % 2 ^ 64),
      reset,
    )
unfolding append
append-full next l that full = rw full refl

-- Appending a list that is not empty, with other nodes, gives both sequences and leaves that list empty.
append-IsList :
    (next : Store) (l that : ForwardList) (xs : List ℕ) (y : ℕ) (ys : List ℕ)
    → IsList (next, l) xs
    → IsList (next, that) (y ∷ ys)
    → Apart xs (y ∷ ys)
    → let (after, joined, left) = append next l that in
      IsList (after, joined) (xs ++ (y ∷ ys)) × IsList (after, left) []
unfolding append
append-IsList next l that [] y ys is is' apart =
    let empty : is_empty l ≡ true = ground (arith, is.0) in rw empty (is', (refl, refl))
append-IsList next l that (x ∷ xs) y ys is is' apart =
    let (head, tail, size, chain, distinct) = is in
    let (head', tail', size', chain', distinct') = is' in
    let full : is_empty l ≡ false = ground (arith, head, distinct.0) in
    let linked = assign next l.tail that.head in
    let end = mem-last x xs in
    let kept = Chain-same next linked x xs (λ a m ne. ground (arith, tail, ne)) distinct chain in
    let kept' =
      Chain-same next linked y ys (λ a m ne. ground (arith, tail, m, apart (last x xs) end))
        distinct' chain' in
    let joint : linked (last x xs) ≡ y = ground (arith, tail, head') in
    subst (λ o. IsList (o.0, o.1) (x ∷ (xs ++ (y ∷ ys))) × IsList (o.0, o.2) [])
      (sym (append-full next l that full))
      (
        (
          head,
          tail' ∙ sym (last-append x xs y ys),
          omega (arith, size, size', length-append xs (y ∷ ys)),
          Chain-append linked x xs y ys kept joint kept',
          Distinct-append (x ∷ xs) (y ∷ ys) distinct distinct' apart,
        ),
        (refl, refl),
      )

for_each-Chain :
    (next : Store) (x : ℕ) (xs : List ℕ)
    → Chain next x xs
    → Distinct (x ∷ xs)
    → next (last x xs) ≡ 0
    → for_each (suc (suc (length xs))) next x ≡ some (x ∷ xs)
unfolding for_each
for_each-Chain next x [] chain distinct ends =
    let here : (x == 0) ≡ false = ground (arith, distinct.0) in rw (here, ends) refl
for_each-Chain next x (y ∷ ys) chain distinct ends =
    let here : (x == 0) ≡ false = ground (arith, distinct.0) in
    let later = for_each-Chain next y ys chain.1 distinct.2 ends in
    rw here (ap (handed x) (ap (for_each (suc (suc (length ys))) next) chain.0 ∙ later))

-- ForEach hands out the nodes in order where the last node's link is null, on one unit of fuel more
-- than there are nodes.
for_each-IsList :
    (next : Store) (l : ForwardList) (x : ℕ) (xs : List ℕ)
    → IsList (next, l) (x ∷ xs)
    → next (last x xs) ≡ 0
    → for_each (suc (suc (length xs))) next l.head ≡ some (x ∷ xs)
for_each-IsList next l x xs is ends =
    ap (for_each (suc (suc (length xs))) next) is.0 ∙ for_each-Chain next x xs is.3 is.4 ends
