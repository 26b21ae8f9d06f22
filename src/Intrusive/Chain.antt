-- ===== src/Intrusive/Chain.antt =====
-- Nodes linked by one pointer: null is 0, and a store gives each node's next node.
use postboy.Prelude.{
  ℕ, ◌≡◌, ◌≢◌, refl, ◌∙◌, List, [], ◌∷◌, ◌++◌, arith, ◌==◌, if◌then◌else◌, Bool, true, false, ◌||◌,
}

abbrev pub Store : Type 0
Store = ℕ → ℕ

abbrev pub assign : Store → ℕ → ℕ → Store
assign next node to a = if node == a then to else next a

abbrev pub mem : ℕ → List ℕ → Bool
mem a [] = false
mem a (x ∷ xs) = (x == a) || mem a xs

-- The nodes are there, and are different.
abbrev pub Distinct : List ℕ → Type 0
Distinct [] = Unit {0}
Distinct (x ∷ xs) = (x ≢ 0) × (mem x xs ≡ false) × Distinct xs

-- From `x` the links lead through the nodes of `xs`.
abbrev pub Chain : Store → ℕ → List ℕ → Type 0
Chain next x [] = Unit {0}
Chain next x (y ∷ ys) = (next x ≡ y) × Chain next y ys

abbrev pub last : ℕ → List ℕ → ℕ
last x [] = x
last x (y ∷ ys) = last y ys

pub mem-append : (a : ℕ) (xs ys : List ℕ) → mem a (xs ++ ys) ≡ (mem a xs || mem a ys)
mem-append a [] ys = refl
mem-append a (x ∷ xs) ys = ground (arith, mem-append a xs ys)

pub last-append : (x : ℕ) (xs : List ℕ) (y : ℕ) (ys : List ℕ) → last x (xs ++ (y ∷ ys)) ≡ last y ys
last-append x [] y ys = refl
last-append x (z ∷ zs) y ys = last-append z zs y ys

pub mem-last : (x : ℕ) (xs : List ℕ) → mem (last x xs) (x ∷ xs) ≡ true
mem-last x [] = ground arith
mem-last x (y ∷ ys) = ground (arith, mem-last y ys)

-- Where the stores agree, so do the chains; a chain's last node may point anywhere.
pub Chain-same :
    (next other : Store) (x : ℕ) (xs : List ℕ)
    → ((a : ℕ) → mem a (x ∷ xs) ≡ true → a ≢ last x xs → other a ≡ next a)
    → Distinct (x ∷ xs)
    → Chain next x xs
    → Chain other x xs
Chain-same next other x [] same d c = tt
Chain-same next other x (y ∷ ys) same d c =
    let end = mem-last y ys in
    let head = same x (ground arith) (λ e. ground (arith, d.1, end, e)) in
    (head ∙ c.0, Chain-same next other y ys (λ a m ne. same a (ground (arith, m)) ne) d.2 c.1)

-- A chain, and another behind it.
pub Chain-append :
    (next : Store) (x : ℕ) (xs : List ℕ) (y : ℕ) (ys : List ℕ)
    → Chain next x xs
    → next (last x xs) ≡ y
    → Chain next y ys
    → Chain next x (xs ++ (y ∷ ys))
Chain-append next x [] y ys c e d = (e, d)
Chain-append next x (z ∷ zs) y ys c e d = (c.0, Chain-append next z zs y ys c.1 e d)

-- No node of one list is a node of the other.
abbrev pub Apart : List ℕ → List ℕ → Type 0
Apart xs ys = (a : ℕ) → mem a xs ≡ true → mem a ys ≡ false

pub Distinct-append :
    (xs ys : List ℕ) → Distinct xs → Distinct ys → Apart xs ys → Distinct (xs ++ ys)
Distinct-append [] ys d e apart = e
Distinct-append (x ∷ xs) ys d e apart =
    let behind = mem-append x xs ys in
    let fresh = apart x (ground arith) in
    (d.0, ground (arith, d.1), Distinct-append xs ys d.2 e (λ a m. apart a (ground (arith, m))))
