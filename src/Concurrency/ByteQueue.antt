-- ===== src/Concurrency/ByteQueue.antt =====
-- src/common/concurrency/spsc_byte_queue.hpp: a ring of bytes. A pointer is its distance from `begin_`; memory
-- is a function, so that a write outside of the ring is seen. Store and Load wait for the test that
-- TryStore and TryLoad make once.
pub mod Cells
pub mod Order
mod Tests
use postboy.Prelude.{
  ℕ, zero, suc, ◌+◌, ◌-◌, ◌/◌, ◌%◌, ◌^◌, Option, none, some, List, [], ◌∷◌, length, ◌==◌,
  if◌then◌else◌, Bool, true, false, not,
}

pub record SpscByteQueue : Type 0 where
  pub memory : ℕ → ℕ
  pub head : ℕ
  pub tail : ℕ
  pub count : ℕ
  pub max_count : ℕ
  pub size : ℕ

-- The constructor, with the bytes that `calloc` clears.
abbrev pub byte_queue : ℕ → ℕ → SpscByteQueue
byte_queue size cell_size = record {
  memory = λ _. 0;
  head = 0;
  tail = 0;
  count = 0;
  max_count = size / cell_size % 2 ^ 32;
  size = size;
}

abbrev pub is_empty : SpscByteQueue → Bool
is_empty q = q.count == 0

abbrev pub available : SpscByteQueue → Bool
available q = not (q.count == q.max_count)

-- `memcpy` into the ring and out of it.
abbrev pub write_bytes : (ℕ → ℕ) → ℕ → List ℕ → ℕ → ℕ
write_bytes memory at [] i = memory i
write_bytes memory at (b ∷ bs) i =
    let later = write_bytes memory (suc at) bs i in if at == i then b else later

abbrev pub read_bytes : (ℕ → ℕ) → ℕ → ℕ → List ℕ
read_bytes memory at zero = []
read_bytes memory at (suc n) = memory at ∷ read_bytes memory (suc at) n

abbrev pub wrapped : ℕ → ℕ → ℕ
wrapped size at = if at == size then 0 else at

-- `StoreImpl`, `LoadImpl`; the count is an `int`.
unfoldable pub store_impl : List ℕ → SpscByteQueue → SpscByteQueue
store_impl bytes q = record q {
  memory = write_bytes q.memory q.tail bytes;
  tail = wrapped q.size (q.tail + length bytes);
  count = (q.count + 1) % 2 ^ 32;
}

unfoldable pub load_impl : ℕ → SpscByteQueue → List ℕ × SpscByteQueue
load_impl n q = (
  read_bytes q.memory q.head n,
  record q { head = wrapped q.size (q.head + n); count = (q.count + (2 ^ 32 - 1)) % 2 ^ 32 },
)

unfoldable pub try_store : List ℕ → SpscByteQueue → Bool × SpscByteQueue
unfolding store_impl
try_store bytes q = if available q then (true, store_impl bytes q) else (false, q)

unfoldable pub try_load : ℕ → SpscByteQueue → Option (List ℕ) × SpscByteQueue
unfolding load_impl
try_load n q = let (bytes, q') = load_impl n q in if is_empty q then (none, q) else (some bytes, q')
