-- ===== src/Concurrency/ByteQueue/Cells.antt =====
-- The slots of the byte ring and the cells in them.
use postboy.Prelude.{
  ℕ, zero, suc, ◌+◌, ◌-◌, ◌*◌, ◌≤◌, ◌<◌, ◌≡◌, ◌≢◌, refl, ap, ap₂, sym, subst, ◌∙◌, ◌⊎◌, inl, inr,
  List, [], ◌∷◌, ◌++◌, arith, length, ltb, ◌==◌, if◌then◌else◌, true, false, dec_lt, ℕ_discrete,
}
use postboy.Concurrency.ByteQueue.{write_bytes, read_bytes, wrapped}

mul_step : (s c : ℕ) → suc s * c ≡ s * c + c
mul_step s c = omega arith

-- A cell ends where the next begins, at the latest.
cells_apart : (s t c : ℕ) → s < t → s * c + c ≤ t * c
cells_apart s zero c lt = absurd (omega arith)
cells_apart s (suc t) c lt = elim (ℕ_discrete s t) [
  | yes e ↦ rw e (omega (arith, mul_step t c))
  | no ne ↦
      let before = cells_apart s t c (omega (arith, ne)) in omega (arith, before, mul_step t c)
]

-- The slot of the k-th cell from the first slot on, for k below twice the number of slots.
abbrev pub place : ℕ → ℕ → ℕ
place slots k = if ltb k slots then k else k - slots

write-outside :
    (memory : ℕ → ℕ) (at : ℕ) (bytes : List ℕ) (i : ℕ)
    → (i < at) ⊎ (at + length bytes ≤ i)
    → write_bytes memory at bytes i ≡ memory i
write-outside memory at [] i out = refl
write-outside memory at (b ∷ bs) i out =
    let apart : (at == i) ≡ false = ground arith in
    let inner : (i < suc at) ⊎ (suc at + length bs ≤ i) = ground arith in
    rw apart (write-outside memory (suc at) bs i inner)

read-same :
    (memory other : ℕ → ℕ) (at n : ℕ)
    → ((i : ℕ) → at ≤ i → i < at + n → other i ≡ memory i)
    → read_bytes other at n ≡ read_bytes memory at n
read-same memory other at zero same = refl
read-same memory other at (suc n) same =
    ap₂ ◌∷◌ (same at (omega arith) (omega arith))
      (read-same memory other (suc at) n (λ i a b. same i (omega arith) (omega arith)))

pub read-write :
    (memory : ℕ → ℕ) (at : ℕ) (bytes : List ℕ)
    → read_bytes (write_bytes memory at bytes) at (length bytes) ≡ bytes
read-write memory at [] = refl
read-write memory at (b ∷ bs) =
    let here : (at == at) ≡ true = ground arith in
    let inner =
      read-same (write_bytes memory (suc at) bs) (write_bytes memory at (b ∷ bs)) (suc at)
        (length bs) (λ i lo hi. let apart : (at == i) ≡ false = ground arith in rw apart refl) in
    ap₂ ◌∷◌ (rw here refl) (inner ∙ read-write memory (suc at) bs)

-- The cells from the k-th place on, each of one size.
abbrev pub Cells : (ℕ → ℕ) → (slots cell k : ℕ) → List (List ℕ) → Type 0
Cells memory slots cell k [] = Unit {0}
Cells memory slots cell k (c ∷ cs) =
    (length c ≡ cell)
    × (read_bytes memory (place slots k * cell) cell ≡ c)
    × Cells memory slots cell (suc k) cs

pub wrapped-place :
    (slots cell s : ℕ)
    → 0 < cell
    → s < slots
    → wrapped (slots * cell) (s * cell + cell) ≡ place slots (suc s) * cell
wrapped-place slots cell s pos lt = elim (ℕ_discrete (suc s) slots) [
  | yes e ↦
      let ends = sym (mul_step s cell) ∙ ap (λ t. t * cell) e in
      let at_end : (s * cell + cell == slots * cell) ≡ true = ground (arith, ends) in
      let from_start : place slots (suc s) ≡ 0 = ground (arith, e) in
      rw (at_end, from_start) (omega arith)
  | no ne ↦
      let gap = cells_apart (suc s) slots cell (omega (arith, ne)) in
      let inside : (s * cell + cell == slots * cell) ≡ false =
        ground (arith, gap, mul_step s cell) in
      let next : place slots (suc s) ≡ suc s = ground (arith, ne) in
      rw (inside, next) (omega (arith, mul_step s cell))
]

outside_cell :
    (s t cell i : ℕ)
    → s ≢ t
    → s * cell ≤ i
    → i < s * cell + cell
    → (i < t * cell) ⊎ (t * cell + cell ≤ i)
outside_cell s t cell i ne lo hi = elim (dec_lt s t) [
  | yes lt ↦ let gap = cells_apart s t cell lt in inl (omega arith)
  | no ge ↦ let gap = cells_apart t s cell (omega (arith, ne, ge)) in inr (omega arith)
]

pub Cells-stored :
    (memory : ℕ → ℕ) (slots cell k tail : ℕ) (bytes : List ℕ) (cells : List (List ℕ))
    → length bytes ≡ cell
    → ((j : ℕ) → k ≤ j → j < k + length cells → place slots j ≢ tail)
    → Cells memory slots cell k cells
    → Cells (write_bytes memory (tail * cell) bytes) slots cell k cells
Cells-stored memory slots cell k tail bytes [] size apart cs = tt
Cells-stored memory slots cell k tail bytes (c ∷ cells) size apart cs =
    let ne = apart k (omega arith) (omega arith) in
    let at = place slots k in
    let kept =
      read-same memory (write_bytes memory (tail * cell) bytes) (at * cell) cell (λ i lo hi.
        write-outside memory (tail * cell) bytes i
          (rw size (outside_cell at tail cell i ne lo hi))) in
    (
      cs.0,
      kept ∙ cs.1,
      Cells-stored memory slots cell (suc k) tail bytes cells size
          (λ j lo hi. apart j (omega arith) (omega arith)) cs.2,
    )

pub Cells-append :
    (memory : ℕ → ℕ) (slots cell k : ℕ) (cells : List (List ℕ)) (bytes : List ℕ)
    → length bytes ≡ cell
    → read_bytes memory (place slots (k + length cells) * cell) cell ≡ bytes
    → Cells memory slots cell k cells
    → Cells memory slots cell k (cells ++ (bytes ∷ []))
Cells-append memory slots cell k [] bytes size here cs = (
  size,
  subst (λ t. read_bytes memory (place slots t * cell) cell ≡ bytes) (omega arith) here,
  tt,
)
Cells-append memory slots cell k (c ∷ cells) bytes size here cs = (
  cs.0,
  cs.1,
  Cells-append memory slots cell (suc k) cells bytes size
      (subst (λ t. read_bytes memory (place slots t * cell) cell ≡ bytes) (omega arith) here) cs.2,
)

-- Behind the last slot the places start over.
Cells-around :
    (memory : ℕ → ℕ) (slots cell j : ℕ) (cells : List (List ℕ))
    → j + length cells ≤ slots
    → Cells memory slots cell (slots + j) cells
    → Cells memory slots cell j cells
Cells-around memory slots cell j [] fit cs = tt
Cells-around memory slots cell j (c ∷ cells) fit cs =
    let same : place slots (slots + j) ≡ place slots j = ground (arith, fit) in
    (
      cs.0,
      subst (λ t. read_bytes memory (t * cell) cell ≡ c) same cs.1,
      Cells-around memory slots cell (suc j) cells (omega (arith, fit))
          (subst (λ t. Cells memory slots cell t cells) (omega arith) cs.2),
    )

pub Cells-next :
    (memory : ℕ → ℕ) (slots cell k : ℕ) (cells : List (List ℕ))
    → k < slots
    → length cells ≤ slots
    → Cells memory slots cell (suc k) cells
    → Cells memory slots cell (place slots (suc k)) cells
Cells-next memory slots cell k cells lt fit cs = elim (ℕ_discrete (suc k) slots) [
  | yes e ↦
      let start : place slots (suc k) ≡ 0 = ground (arith, e) in
      rw start (
        Cells-around memory slots cell 0 cells (omega (arith, fit))
          (subst (λ t. Cells memory slots cell t cells) (omega (arith, e)) cs))
  | no ne ↦ let next : place slots (suc k) ≡ suc k = ground (arith, ne) in rw next cs
]
