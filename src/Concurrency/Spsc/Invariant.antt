-- ===== src/Concurrency/Spsc/Invariant.antt =====
-- The invariant of the ring, and that each atomic step of either thread keeps it.
use postboy.Prelude.{
  ℕ, ◌+◌, ◌%◌, ◌^◌, ◌≤◌, ◌<◌, ◌≡◌, refl, subst, inl, inr, none, some, List, [], ◌∷◌, ◌++◌, arith,
  length, length-append, false, Bool-cases,
}
use postboy.Concurrency.Spsc.{
  SpscQueue, update, load_start, load_end, drained, refresh_consumer, publish, release, close, full,
  refresh_producer, create, front_slot, destroy, empty_queue,
}
use postboy.Concurrency.Spsc.Slots.{Slots, Slots-create, Slots-destroy, Slots-front}

-- The order of the indices around `pending` values. `unpublished` counts the values whose `end_`
-- update is outstanding, `unreleased` those taken whose `start_` update is. No index has wrapped.
pub record Indices {ℓ} {A : Type ℓ} (capacity unpublished unreleased pending : ℕ) (q : SpscQueue A)
    : Type 0 where
  pub sized : 0 < capacity
  pub producer_view : q.producer_start ≤ q.start
  pub consumer_view : q.consumer_end ≤ q.end
  pub taken : q.start + unreleased ≡ q.consumer_start
  pub written : q.end + unpublished ≡ q.producer_end
  pub ordered : q.consumer_start ≤ q.consumer_end
  pub fits : q.producer_end ≤ q.producer_start + capacity
  pub count : q.producer_end ≡ q.consumer_start + pending
  pub small : q.producer_end < 2 ^ 64

-- `xs` is pending: written and not yet taken.
pub record Inv {ℓ} {A : Type ℓ} (capacity unpublished unreleased : ℕ) (q : SpscQueue A)
    (xs : List A) : Type ℓ where
  pub indices : Indices capacity unpublished unreleased (length xs) q
  pub slots : Slots capacity q.buffer q.consumer_start xs

pub empty-Inv {ℓ} :
    {A : Type ℓ} (capacity : ℕ) → 0 < capacity → Inv {A = A} capacity 0 0 empty_queue []
unfolding empty_queue
empty-Inv capacity h = record { indices = omega arith; slots = λ i lt. refl }

module _ {ℓ} {A : Type ℓ} {capacity unpublished unreleased : ℕ} {q : SpscQueue A}
    {xs : List A} where
  pub load_start-Inv :
      Inv capacity unpublished unreleased q xs
      → Inv capacity unpublished unreleased (load_start q) xs
  load_start-Inv v = let i = v.indices in record { indices = omega arith; slots = v.slots }

  pub refresh_producer-Inv :
      Inv capacity unpublished unreleased q xs
      → Inv capacity unpublished unreleased (refresh_producer capacity q) xs
  refresh_producer-Inv v = elim (Bool-cases (full capacity q)) [
    | inl e ↦ rw e (load_start-Inv v)
    | inr e ↦ rw e v
  ]

  pub load_end-Inv :
      Inv capacity unpublished unreleased q xs → Inv capacity unpublished unreleased (load_end q) xs
  load_end-Inv v = let i = v.indices in record { indices = omega arith; slots = v.slots }

  pub refresh_consumer-Inv :
      Inv capacity unpublished unreleased q xs
      → Inv capacity unpublished unreleased (refresh_consumer q) xs
  refresh_consumer-Inv v = elim (Bool-cases (drained q)) [
    | inl e ↦ rw e (load_end-Inv v)
    | inr e ↦ rw e v
  ]

  pub close-Inv :
      Inv capacity unpublished unreleased q xs → Inv capacity unpublished unreleased (close q) xs
  unfolding close
  close-Inv v = let i = v.indices in record { indices = omega arith; slots = v.slots }

module _ {ℓ} {A : Type ℓ} {capacity unreleased : ℕ} {q : SpscQueue A} {xs : List A} where
  -- A test that does not find the ring full leaves a free slot for the write.
  pub full_room : Inv capacity 0 unreleased q xs → full capacity q ≡ false → length xs < capacity
  full_room v h = let i = v.indices in ground arith

  pub create-Inv :
      (x : A)
      → Inv capacity 0 unreleased q xs
      → full capacity q ≡ false
      → q.producer_end + 1 < 2 ^ 64
      → Inv capacity 1 unreleased (create capacity x q) (xs ++ (x ∷ []))
  create-Inv x v h small =
      let i = v.indices in
      record {
        indices = ground (arith, length-append xs (x ∷ []));
        slots =
            rw i.count
              (Slots-create capacity q.consumer_start q.buffer xs x (full_room v h) v.slots);
      }

  pub publish-Inv : Inv capacity 1 unreleased q xs → Inv capacity 0 unreleased (publish q) xs
  publish-Inv v = let i = v.indices in record { indices = omega arith; slots = v.slots }

module _ {ℓ} {A : Type ℓ} {capacity unpublished : ℕ} {q : SpscQueue A} where
  -- A test that does not find the ring drained leaves a value to take.
  pub drained_front :
      (xs : List A)
      → Inv capacity unpublished 0 q xs
      → drained q ≡ false
      → (x : A) × (ys : List A) × (xs ≡ x ∷ ys) × (front_slot capacity q ≡ some x)
  drained_front [] v h = let i = v.indices in absurd (ground arith)
  drained_front (x ∷ xs) v h =
      let i = v.indices in
      (x, xs, refl, Slots-front capacity q.consumer_start q.buffer (x ∷ xs) i.sized v.slots)

  pub destroy-Inv :
      (x : A) (xs : List A)
      → Inv capacity unpublished 0 q (x ∷ xs)
      → drained q ≡ false
      → Inv capacity unpublished 1 (destroy capacity q) xs
  destroy-Inv x xs v h =
      let i = v.indices in
      record {
        indices = ground arith;
        slots =
            subst (λ k. Slots capacity (update q.buffer (q.consumer_start % capacity) none) k xs)
              (omega arith)
              (Slots-destroy capacity q.consumer_start q.buffer x xs (omega arith) v.slots);
      }

  pub release-Inv :
      (xs : List A) → Inv capacity unpublished 1 q xs → Inv capacity unpublished 0 (release q) xs
  release-Inv xs v = let i = v.indices in record { indices = omega arith; slots = v.slots }
