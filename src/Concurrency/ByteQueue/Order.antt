-- ===== src/Concurrency/ByteQueue/Order.antt =====
-- With cells of one size that divides the ring's, the byte queue is a queue of cells.
use postboy.Prelude.{
  ℕ, suc, ◌+◌, ◌*◌, ◌^◌, ◌≤◌, ◌<◌, ◌≡◌, refl, ap, ap₂, sym, subst, ◌∙◌, inl, inr, Option, none,
  some, List, [], ◌∷◌, ◌++◌, arith, length, length-append, ◌==◌, if◌then◌else◌, Bool, true, false,
  Bool-cases,
}
use postboy.Concurrency.ByteQueue.{
  SpscByteQueue, is_empty, available, write_bytes, read_bytes, store_impl, load_impl, try_store,
  try_load,
}
use postboy.Concurrency.ByteQueue.Cells.{
  place, Cells, read-write, Cells-stored, Cells-append, Cells-next, wrapped-place,
}

-- The ring holds the cells, the oldest in the slot `first`.
pub record Holds (slots cell : ℕ) (q : SpscByteQueue) (cells : List (List ℕ)) : Type 0 where
  pub first : ℕ
  pub first_bound : first < slots
  pub some_bytes : 0 < cell
  pub few_slots : slots < 2 ^ 31
  pub slot_count : q.max_count ≡ slots
  pub sized : q.size ≡ slots * cell
  pub head_at : q.head ≡ first * cell
  pub tail_at : q.tail ≡ place slots (first + length cells) * cell
  pub counted : q.count ≡ length cells
  pub fits : length cells ≤ slots
  pub contents : Cells q.memory slots cell first cells

store_impl-Holds :
    (slots cell : ℕ) (q : SpscByteQueue) (cells : List (List ℕ)) (bytes : List ℕ)
    → length bytes ≡ cell
    → Holds slots cell q cells
    → length cells < slots
    → Holds slots cell (store_impl bytes q) (cells ++ (bytes ∷ []))
unfolding store_impl
store_impl-Holds slots cell q cells bytes size h room =
    let tail = place slots (h.first + length cells) in
    let tail_bound : tail < slots = ground (arith, h.first_bound) in
    let grown = length-append cells (bytes ∷ []) in
    let written : read_bytes (write_bytes q.memory (tail * cell) bytes) (tail * cell) cell ≡ bytes =
      subst (λ n. read_bytes (write_bytes q.memory (tail * cell) bytes) (tail * cell) n ≡ bytes)
        size (read-write q.memory (tail * cell) bytes) in
    let kept =
      Cells-stored q.memory slots cell h.first tail bytes cells size
        (λ j lo hi e. ground (arith, e, h.first_bound)) h.contents in
    record {
      first = h.first;
      first_bound = h.first_bound;
      some_bytes = h.some_bytes;
      few_slots = h.few_slots;
      slot_count = h.slot_count;
      sized = h.sized;
      head_at = h.head_at;
      tail_at =
          rw (h.tail_at, size, h.sized)
            (wrapped-place slots cell tail h.some_bytes tail_bound
              ∙ ap (λ t. t * cell) (ground (arith, h.first_bound, room, grown)));
      counted = omega (arith, h.counted, grown, h.few_slots);
      fits = omega (arith, grown);
      contents = rw h.tail_at (
          Cells-append (write_bytes q.memory (tail * cell) bytes) slots cell h.first cells bytes
            size written kept);
    }

load_impl-Holds :
    (slots cell : ℕ) (q : SpscByteQueue) (c : List ℕ) (cells : List (List ℕ))
    → Holds slots cell q (c ∷ cells)
    → ((load_impl cell q).0 ≡ c) × Holds slots cell (load_impl cell q).1 cells
unfolding load_impl
load_impl-Holds slots cell q c cells h =
    let first = h.first in
    let at_first : place slots first ≡ first = ground (arith, h.first_bound) in
    let bound : first < slots = h.first_bound in
    let fit = h.fits in
    (
      subst (λ t. read_bytes q.memory t cell ≡ c) (ap (λ t. t * cell) at_first ∙ sym h.head_at)
          h.contents.1,
      record {
        first = place slots (suc first);
        first_bound = ground arith;
        some_bytes = h.some_bytes;
        few_slots = h.few_slots;
        slot_count = h.slot_count;
        sized = h.sized;
        head_at = rw (h.head_at, h.sized) (wrapped-place slots cell first h.some_bytes bound);
        tail_at = h.tail_at ∙ ap (λ t. t * cell) (ground arith);
        counted = omega (arith, h.counted, h.few_slots, fit);
        fits = omega (arith, fit);
        contents =
            Cells-next q.memory slots cell first cells bound (omega (arith, fit)) h.contents.2;
      },
    )

-- The calls that do not wait; what they give is the stored flag or the loaded bytes.
pub data Operation : Type 0 where
  store : List ℕ → Operation
  load : Operation

pub data Outcome : Type 0 where
  stored : Bool → Outcome
  loaded : Option (List ℕ) → Outcome

abbrev pub perform : ℕ → Operation → SpscByteQueue → Outcome × SpscByteQueue
perform cell (store bytes) q = let (done, q') = try_store bytes q in (stored done, q')
perform cell load q = let (bytes, q') = try_load cell q in (loaded bytes, q')

abbrev pub perform_all : ℕ → List Operation → SpscByteQueue → List Outcome × SpscByteQueue
perform_all cell [] q = ([], q)
perform_all cell (o ∷ os) q =
    let (out, q') = perform cell o q in let (outs, r) = perform_all cell os q' in (out ∷ outs, r)

-- The same on a queue of cells that is bounded by the number of slots.
abbrev pub expected : ℕ → Operation → List (List ℕ) → Outcome × List (List ℕ)
expected slots (store bytes) cells =
    if length cells == slots then (stored false, cells) else (stored true, cells ++ (bytes ∷ []))
expected slots load [] = (loaded none, [])
expected slots load (c ∷ cells) = (loaded (some c), cells)

abbrev pub expected_all : ℕ → List Operation → List (List ℕ) → List Outcome × List (List ℕ)
expected_all slots [] cells = ([], cells)
expected_all slots (o ∷ os) cells =
    let (out, cells') = expected slots o cells in
    let (outs, last) = expected_all slots os cells' in (out ∷ outs, last)

-- What is stored has the size of a cell.
abbrev pub Sized : ℕ → List Operation → Type 0
Sized cell [] = Unit {0}
Sized cell (store bytes ∷ os) = (length bytes ≡ cell) × Sized cell os
Sized cell (load ∷ os) = Sized cell os

abbrev Performed : (slots cell : ℕ) → Outcome × SpscByteQueue → Outcome × List (List ℕ) → Type 0
Performed slots cell real wanted = (real.0 ≡ wanted.0) × Holds slots cell real.1 wanted.1

store-Performed :
    (slots cell : ℕ) (q : SpscByteQueue) (cells : List (List ℕ)) (bytes : List ℕ)
    → length bytes ≡ cell
    → Holds slots cell q cells
    → Performed slots cell (perform cell (store bytes) q) (expected slots (store bytes) cells)
unfolding try_store
store-Performed slots cell q cells bytes size h = elim (Bool-cases (length cells == slots)) [
  | inl e ↦
      let full : available q ≡ false = ground (arith, h.counted, h.slot_count) in
      rw (full, e) (refl, h)
  | inr e ↦
      let room : available q ≡ true = ground (arith, h.counted, h.slot_count) in
      rw (room, e) (refl, store_impl-Holds slots cell q cells bytes size h (ground (arith, h.fits)))
]

load-Performed :
    (slots cell : ℕ) (q : SpscByteQueue) (cells : List (List ℕ))
    → Holds slots cell q cells
    → Performed slots cell (perform cell load q) (expected slots load cells)
unfolding try_load
load-Performed slots cell q [] h =
    let empty : is_empty q ≡ true = ground (arith, h.counted) in rw empty (refl, h)
load-Performed slots cell q (c ∷ cells) h =
    let full : is_empty q ≡ false = ground (arith, h.counted) in
    let (out, rest) = load_impl-Holds slots cell q c cells h in
    rw full (ap (λ b. loaded (some b)) out, rest)

-- A ring that holds cells of one size, which times the number of slots is the ring's size, answers any run of
-- TryStore and TryLoad of that size as a queue of cells bounded by the number of slots, and holds what that
-- queue holds at the end.
pub perform_all_refines_queue :
    (slots cell : ℕ) (os : List Operation) (q : SpscByteQueue) (cells : List (List ℕ))
    → Sized cell os
    → Holds slots cell q cells
    → ((perform_all cell os q).0 ≡ (expected_all slots os cells).0)
      × Holds slots cell (perform_all cell os q).1 (expected_all slots os cells).1
perform_all_refines_queue slots cell [] q cells sized h = (refl, h)
perform_all_refines_queue slots cell (store bytes ∷ os) q cells sized h =
    let (out, h') = store-Performed slots cell q cells bytes sized.0 h in
    let (outs, end) =
      perform_all_refines_queue slots cell os (perform cell (store bytes) q).1
        (expected slots (store bytes) cells).1 sized.1 h' in
    (ap₂ ◌∷◌ out outs, end)
perform_all_refines_queue slots cell (load ∷ os) q cells sized h =
    let (out, h') = load-Performed slots cell q cells h in
    let (outs, end) =
      perform_all_refines_queue slots cell os (perform cell load q).1 (expected slots load cells).1
        sized h' in
    (ap₂ ◌∷◌ out outs, end)
