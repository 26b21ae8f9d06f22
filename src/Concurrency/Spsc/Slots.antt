-- ===== src/Concurrency/Spsc/Slots.antt =====
-- The ring's slots: which hold the pending values, and that a write or a clear keeps the rest.
use native.Mathlib.Nat.{div-add-mod, add-mod_right}
use postboy.Prelude.{
  ℕ, zero, suc, ◌+◌, ◌%◌, ◌≤◌, ◌<◌, ◌≡◌, ◌≢◌, refl, ap, sym, subst, ◌∙◌, Option, none, some, List,
  [], ◌∷◌, ◌++◌, arith, length, get_elem?, dec_lt, ℕ_discrete,
}
use postboy.Concurrency.Spsc.{update}

-- Fewer than `cap` apart, two indices fall into different slots.
mod_ne : (cap i j : ℕ) → i < j → j < i + cap → i % cap ≢ j % cap
mod_ne cap i j h k e = grind (arith, div-add-mod i cap, div-add-mod j cap)

turn : (size i j : ℕ) → j ≡ i + size → j % size ≡ i % size
turn size i j e = rw (e, add-mod_right)

module _ {ℓ} {A : Type ℓ} where
  -- The pending values stand in the slots from `first` on, and the other slots are free.
  abbrev pub Slots : ℕ → (ℕ → Option A) → ℕ → List A → Type ℓ
  Slots cap buffer first xs = (i : ℕ) → i < cap → buffer ((first + i) % cap) ≡ get_elem? xs i

  get_elem?-snoc_last : (xs : List A) (v : A) → get_elem? (xs ++ (v ∷ [])) (length xs) ≡ some v
  get_elem?-snoc_last [] v = refl
  get_elem?-snoc_last (x ∷ xs) v = get_elem?-snoc_last xs v

  get_elem?-snoc_ne :
      (xs : List A) (v : A) (i : ℕ) → i ≢ length xs → get_elem? (xs ++ (v ∷ [])) i ≡ get_elem? xs i
  get_elem?-snoc_ne [] v zero h = absurd (h refl)
  get_elem?-snoc_ne [] v (suc i) h = refl
  get_elem?-snoc_ne (x ∷ xs) v zero h = refl
  get_elem?-snoc_ne (x ∷ xs) v (suc i) h = get_elem?-snoc_ne xs v i (λ e. h (ap suc e))

  pub get_elem?_beyond : (xs : List A) (i : ℕ) → length xs ≤ i → get_elem? xs i ≡ none
  get_elem?_beyond [] i h = refl
  get_elem?_beyond (x ∷ xs) zero h = absurd (omega arith)
  get_elem?_beyond (x ∷ xs) (suc i) h = get_elem?_beyond xs i (omega arith)

  update_self : (f : ℕ → Option A) (i : ℕ) (v : Option A) → update f i v i ≡ v
  update_self f i v = ground arith

  update_ne : (f : ℕ → Option A) (i j : ℕ) (v : Option A) → i ≢ j → update f i v j ≡ f j
  update_ne f i j v h = ground arith

  -- Writing the slot behind the last pending value appends it.
  pub Slots-create :
      (cap first : ℕ) (buffer : ℕ → Option A) (xs : List A) (v : A)
      → length xs < cap
      → Slots cap buffer first xs
      → Slots cap (update buffer ((first + length xs) % cap) (some v)) first (xs ++ (v ∷ []))
  Slots-create cap first buffer xs v room s i h = elim (ℕ_discrete i (length xs)) [
    | yes e ↦
        rw (e, update_self buffer ((first + length xs) % cap) (some v))
          (sym (get_elem?-snoc_last xs v))
    | no ne ↦ rw (get_elem?-snoc_ne xs v i ne) (
        update_ne buffer ((first + length xs) % cap) ((first + i) % cap) (some v) (apart i h ne)
        ∙ s i h)
  ]
    where
      apart : (i : ℕ) → i < cap → i ≢ length xs → (first + length xs) % cap ≢ (first + i) % cap
      apart i h ne = elim (dec_lt i (length xs)) [
        | yes lt ↦
            λ e. mod_ne cap (first + i) (first + length xs) (omega arith) (omega arith) (sym e)
        | no nlt ↦ mod_ne cap (first + length xs) (first + i) (omega arith) (omega arith)
      ]

  -- Clearing the first slot drops its value.
  pub Slots-destroy :
      (cap first : ℕ) (buffer : ℕ → Option A) (x : A) (xs : List A)
      → suc (length xs) ≤ cap
      → Slots cap buffer first (x ∷ xs)
      → Slots cap (update buffer (first % cap) none) (first + 1) xs
  Slots-destroy cap first buffer x xs room s i h = elim (dec_lt (i + 1) cap) [
    | yes lt ↦
        update_ne buffer (first % cap) ((first + 1 + i) % cap) none
          (mod_ne cap first (first + 1 + i) (omega arith) (omega arith))
        ∙ moved lt
    | no nlt ↦
        rw (same_slot i (omega arith))
          (update_self buffer (first % cap) none ∙ sym (get_elem?_beyond xs i (omega arith)))
  ]
    where
      same_slot : (i : ℕ) → i + 1 ≡ cap → (first + 1 + i) % cap ≡ first % cap
      same_slot i e = turn cap first (first + 1 + i) (omega arith)

      moved : i + 1 < cap → buffer ((first + 1 + i) % cap) ≡ get_elem? xs i
      moved lt =
          subst (λ k. buffer (k % cap) ≡ get_elem? xs i) (omega arith) (s (suc i) (omega arith))

  -- The first slot holds the first pending value.
  pub Slots-front :
      (cap first : ℕ) (buffer : ℕ → Option A) (xs : List A)
      → 0 < cap
      → Slots cap buffer first xs
      → buffer (first % cap) ≡ get_elem? xs 0
  Slots-front cap first buffer xs h s =
      subst (λ k. buffer (k % cap) ≡ get_elem? xs 0) (omega arith) (s 0 h)
