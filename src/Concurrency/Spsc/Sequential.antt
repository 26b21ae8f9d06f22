-- ===== src/Concurrency/Spsc/Sequential.antt =====
-- One call at a time the ring is a bounded queue: the cached indices never show.
use postboy.Prelude.{
  ℕ, ◌+◌, ◌^◌, ◌<◌, ◌≡◌, refl, ap₂, ◌∙◌, inl, inr, List, [], ◌∷◌, ◌++◌, arith, length, ◌==◌,
  if◌then◌else◌, Bool, true, false, ◌||◌, Bool-cases,
}
use postboy.Concurrency.Spsc.{
  SpscQueue, Popped, nothing, value, try_push, try_pop, full, drained, is_closed_internal,
  refresh_producer, refresh_consumer, push_refreshed, pop_refreshed,
}
use postboy.Concurrency.Spsc.Slots.{Slots-front}
use postboy.Concurrency.Spsc.Invariant.{
  Inv, refresh_producer-Inv, refresh_consumer-Inv, create-Inv, publish-Inv, destroy-Inv,
  release-Inv,
}

-- The specification: a list of at most `capacity` values that a closed queue does not extend.
pub record Fifo {ℓ} (A : Type ℓ) : Type ℓ where
  pub items : List A
  pub closed : Bool

unfoldable pub fifo_push {ℓ} : {A : Type ℓ} → ℕ → Fifo A → A → Bool × Fifo A
fifo_push capacity f v =
    if length f.items == capacity || f.closed
    then (false, f)
    else (true, record f { items = f.items ++ (v ∷ []) })

abbrev front {ℓ} : {A : Type ℓ} → List A → Popped A
front [] = nothing
front (x ∷ xs) = value x

abbrev rest {ℓ} : {A : Type ℓ} → List A → List A
rest [] = []
rest (x ∷ xs) = xs

unfoldable pub fifo_pop {ℓ} : {A : Type ℓ} → Fifo A → Popped A × Fifo A
fifo_pop f = (front f.items, record f { items = rest f.items })

-- A ring at rest that stands for a bounded queue.
pub record Represents {ℓ} {A : Type ℓ} (capacity : ℕ) (closeable : Bool) (q : SpscQueue A)
    (f : Fifo A) : Type ℓ where
  pub inv : Inv capacity 0 0 q f.items
  pub flag : is_closed_internal closeable q ≡ f.closed

refreshed_end {ℓ} :
    {A : Type ℓ} (capacity : ℕ) (q : SpscQueue A)
    → (refresh_producer capacity q).producer_end ≡ q.producer_end
refreshed_end capacity q = ground arith

popped_flag {ℓ} :
    {A : Type ℓ} (capacity : ℕ) (closeable : Bool) (q : SpscQueue A)
    → is_closed_internal closeable (pop_refreshed capacity q).1 ≡ is_closed_internal closeable q
popped_flag capacity closeable q = ground arith

pop_items {ℓ} :
    {A : Type ℓ} {capacity : ℕ} {q : SpscQueue A} (xs : List A)
    → Inv capacity 0 0 q xs
    → drained q ≡ (length xs == 0)
    → let (out, q') = pop_refreshed capacity q in (out ≡ front xs) × Inv capacity 0 0 q' (rest xs)
pop_items [] v e = rw e (refl, v)
pop_items {capacity} {q} (x ∷ xs) v e =
    let more : drained q ≡ false = e ∙ ground arith in
    rw (more, Slots-front capacity q.consumer_start q.buffer (x ∷ xs) v.indices.sized v.slots)
      (refl, release-Inv xs (destroy-Inv x xs v more))

module _ {ℓ} {A : Type ℓ} {capacity : ℕ} {closeable : Bool} {q : SpscQueue A} {f : Fifo A} where
  -- After the producer's refresh the cached test for a full ring is exact.
  refreshed_full :
      Represents capacity closeable q f
      → full capacity (refresh_producer capacity q) ≡ (length f.items == capacity)
  refreshed_full r = let i = r.inv.indices in ground arith

  refreshed_drained :
      Represents capacity closeable q f → drained (refresh_consumer q) ≡ (length f.items == 0)
  refreshed_drained r = let i = r.inv.indices in ground arith

  refresh_producer-Represents :
      Represents capacity closeable q f
      → Represents capacity closeable (refresh_producer capacity q) f
  refresh_producer-Represents r = record {
    inv = refresh_producer-Inv r.inv;
    flag = ground (arith, r.flag);
  }

  refresh_consumer-Represents :
      Represents capacity closeable q f → Represents capacity closeable (refresh_consumer q) f
  refresh_consumer-Represents r = record {
    inv = refresh_consumer-Inv r.inv;
    flag = ground (arith, r.flag);
  }

  push_refreshed_refines :
      (v : A)
      → Represents capacity closeable q f
      → full capacity q ≡ (length f.items == capacity)
      → q.producer_end + 1 < 2 ^ 64
      → let (done, q') = push_refreshed capacity closeable v q in
        let (done', f') = fifo_push capacity f v in
        (done ≡ done') × Represents capacity closeable q' f'
  unfolding fifo_push
  push_refreshed_refines v r ef small = elim (Bool-cases (length f.items == capacity || f.closed)) [
    | inl e ↦ rw (ap₂ ◌||◌ ef r.flag ∙ e, e) (refl, r)
    | inr e ↦
        rw (ap₂ ◌||◌ ef r.flag ∙ e, e)
          (
            refl,
            record {
              inv = publish-Inv (create-Inv v r.inv (ground (arith, ef)) small);
              flag = r.flag;
            },
          )
  ]

  pop_refreshed_refines :
      Represents capacity closeable q f
      → drained q ≡ (length f.items == 0)
      → let (out, q') = pop_refreshed capacity q in
        let (out', f') = fifo_pop f in (out ≡ out') × Represents capacity closeable q' f'
  unfolding fifo_pop
  pop_refreshed_refines r ed =
      let (out, inv) = pop_items f.items r.inv ed in
      (out, record { inv = inv; flag = popped_flag capacity closeable q ∙ r.flag })

module _ {ℓ} {A : Type ℓ} {capacity : ℕ} {closeable : Bool} {q : SpscQueue A} {f : Fifo A} where
  -- `TryPush` on a ring that stands for a bounded queue answers and stores what the bounded queue
  -- would, while fewer than 2^64 values were pushed.
  pub try_push_refines :
      (v : A)
      → Represents capacity closeable q f
      → q.producer_end + 1 < 2 ^ 64
      → let (done, q') = try_push capacity closeable q v in
        let (done', f') = fifo_push capacity f v in
        (done ≡ done') × Represents capacity closeable q' f'
  unfolding try_push
  try_push_refines v r small =
      push_refreshed_refines v (refresh_producer-Represents r) (refreshed_full r)
        (rw (refreshed_end capacity q) small)

  -- `TryPop` on a ring that stands for a bounded queue answers and leaves what the bounded queue
  -- would.
  pub try_pop_refines :
      Represents capacity closeable q f
      → let (out, q') = try_pop capacity q in
        let (out', f') = fifo_pop f in (out ≡ out') × Represents capacity closeable q' f'
  unfolding try_pop
  try_pop_refines r = pop_refreshed_refines (refresh_consumer-Represents r) (refreshed_drained r)
