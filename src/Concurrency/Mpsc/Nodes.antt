-- ===== src/Concurrency/Mpsc/Nodes.antt =====
-- The nodes of the queue: how often each stands in a list, and stacks that end in null.
use postboy.Prelude.{
  ℕ, ◌+◌, ◌<◌, ◌≡◌, ◌≢◌, refl, sym, subst, List, [], ◌∷◌, ◌++◌, arith, ◌==◌, if◌then◌else◌, true,
  false,
}
use postboy.Intrusive.Chain.{Store, mem, Chain-same}
use postboy.Intrusive.ForwardList.{ForwardList}
use postboy.Intrusive.ForwardListOrder.{IsList}

abbrev pub count : ℕ → List ℕ → ℕ
count a [] = 0
count a (x ∷ xs) = (if x == a then 1 else 0) + count a xs

pub count-mem : (a : ℕ) (xs : List ℕ) → count a xs ≡ 0 → mem a xs ≡ false
count-mem a [] h = refl
count-mem a (x ∷ xs) h = ground (arith, h, count-mem a xs)

pub mem-count : (a : ℕ) (xs : List ℕ) → mem a xs ≡ true → 0 < count a xs
mem-count a [] h = absurd (cc h)
mem-count a (x ∷ xs) h = ground (arith, h, mem-count a xs)

-- From `a` the links lead through the nodes to null.
abbrev pub Linked : Store → ℕ → List ℕ → Type 0
Linked next a [] = a ≡ 0
Linked next a (x ∷ xs) = (a ≡ x) × (x ≢ 0) × Linked next (next x) xs

pub Linked-same :
    (next other : Store) (a : ℕ) (xs : List ℕ)
    → ((b : ℕ) → 0 < count b xs → other b ≡ next b)
    → Linked next a xs
    → Linked other a xs
Linked-same next other a [] same h = h
Linked-same next other a (x ∷ xs) same h =
    let here = same x (ground arith) in
    (
      h.0,
      h.1,
      subst (λ b. Linked other b xs) (sym here)
          (Linked-same next other (next x) xs (λ b m. same b (omega arith)) h.2),
    )

pub IsList-same :
    (next other : Store) (l : ForwardList) (xs : List ℕ)
    → ((b : ℕ) → 0 < count b xs → other b ≡ next b)
    → IsList (next, l) xs
    → IsList (other, l) xs
IsList-same next other l [] same is = is
IsList-same next other l (x ∷ xs) same is =
    let (head, tail, size, chain, distinct) = is in
    let kept =
      Chain-same next other x xs (λ a m ne. same a (mem-count a (x ∷ xs) m)) distinct chain in
    (head, tail, size, kept, distinct)

-- Turning one list over onto another.
abbrev pub over : List ℕ → List ℕ → List ℕ
over [] ys = ys
over (x ∷ xs) ys = over xs (x ∷ ys)

pub over-append : (xs ys zs : List ℕ) → over xs (ys ++ zs) ≡ over xs ys ++ zs
over-append [] ys zs = refl
over-append (x ∷ xs) ys zs = over-append xs (x ∷ ys) zs
