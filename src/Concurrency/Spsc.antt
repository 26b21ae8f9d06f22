-- ===== src/Concurrency/Spsc.antt =====
-- src/common/concurrency/spsc_queue.hpp: the bounded single-producer single-consumer ring.
-- A slot of `buffer_` holds `some v` while an object lives in it. The 64-bit indices wrap.
pub mod Slots
pub mod Invariant
pub mod Sequential
pub mod Runs
pub mod Threads
pub mod Safety
mod Tests
use postboy.Prelude.{
  ℕ, ◌+◌, ◌-◌, ◌%◌, ◌^◌, Bool, true, false, ◌||◌, Option, none, some, ◌==◌, if◌then◌else◌,
}

abbrev pub update {ℓ} : {A : Type ℓ} → (ℕ → A) → ℕ → A → ℕ → A
update f i v j = if i == j then v else f j

-- `size_t` increment and difference.
abbrev pub inc : ℕ → ℕ
inc n = (n + 1) % 2 ^ 64

abbrev pub diff : ℕ → ℕ → ℕ
diff a b = (a + 2 ^ 64 - b) % 2 ^ 64

pub record SpscQueue {ℓ} (A : Type ℓ) : Type ℓ where
  pub buffer : ℕ → Option A
  pub consumer_start : ℕ
  pub consumer_end : ℕ
  pub closed_flag : Bool
  pub producer_end : ℕ
  pub producer_start : ℕ
  pub start : ℕ
  pub end : ℕ

-- What a pop hands out: `garbage` is a read of a slot in which no object lives.
pub data Popped {ℓ} (A : Type ℓ) : Type ℓ where
  nothing : Popped A
  value : A → Popped A
  garbage : Popped A

abbrev pub from_slot {ℓ} : {A : Type ℓ} → Option A → Popped A
from_slot none = garbage
from_slot (some a) = value a

-- The producer's and the consumer's re-read of the other side's index.
abbrev pub load_start {ℓ} : {A : Type ℓ} → SpscQueue A → SpscQueue A
load_start q = record q { producer_start = q.start }

abbrev pub load_end {ℓ} : {A : Type ℓ} → SpscQueue A → SpscQueue A
load_end q = record q { consumer_end = q.end }

abbrev pub drained {ℓ} : {A : Type ℓ} → SpscQueue A → Bool
drained q = q.consumer_end == q.consumer_start

abbrev pub refresh_consumer {ℓ} : {A : Type ℓ} → SpscQueue A → SpscQueue A
refresh_consumer q = if drained q then load_end q else q

abbrev pub publish {ℓ} : {A : Type ℓ} → SpscQueue A → SpscQueue A
publish q = record q { end = inc q.end }

abbrev pub release {ℓ} : {A : Type ℓ} → SpscQueue A → SpscQueue A
release q = record q { start = inc q.start }

pub close {ℓ} : {A : Type ℓ} → SpscQueue A → SpscQueue A
close q = record q { closed_flag = true }

-- `Closeable` is the template parameter.
abbrev pub is_closed_internal {ℓ} : {A : Type ℓ} → Bool → SpscQueue A → Bool
is_closed_internal closeable q = if closeable then q.closed_flag else false

-- `Capacity` is the other one.
module _ (capacity : ℕ) where
  abbrev pub full {ℓ} : {A : Type ℓ} → SpscQueue A → Bool
  full q = diff q.producer_end q.producer_start == capacity

  abbrev pub refresh_producer {ℓ} : {A : Type ℓ} → SpscQueue A → SpscQueue A
  refresh_producer q = if full q then load_start q else q

  abbrev pub create {ℓ} : {A : Type ℓ} → A → SpscQueue A → SpscQueue A
  create v q = record q {
    buffer = update q.buffer (q.producer_end % capacity) (some v);
    producer_end = inc q.producer_end;
  }

  abbrev pub front_slot {ℓ} : {A : Type ℓ} → SpscQueue A → Option A
  front_slot q = q.buffer (q.consumer_start % capacity)

  abbrev pub destroy {ℓ} : {A : Type ℓ} → SpscQueue A → SpscQueue A
  destroy q = record q {
    buffer = update q.buffer (q.consumer_start % capacity) none;
    consumer_start = inc q.consumer_start;
  }

  abbrev pub push_refreshed {ℓ} : {A : Type ℓ} → Bool → A → SpscQueue A → Bool × SpscQueue A
  push_refreshed closeable v q =
      if full q || is_closed_internal closeable q then (false, q) else (true, publish (create v q))

  pub try_push {ℓ} : {A : Type ℓ} → Bool → SpscQueue A → A → Bool × SpscQueue A
  try_push closeable q v = push_refreshed closeable v (refresh_producer q)

  abbrev pub pop_refreshed {ℓ} : {A : Type ℓ} → SpscQueue A → Popped A × SpscQueue A
  pop_refreshed q =
      if drained q then (nothing, q) else (from_slot (front_slot q), release (destroy q))

  pub try_pop {ℓ} : {A : Type ℓ} → SpscQueue A → Popped A × SpscQueue A
  try_pop q = pop_refreshed (refresh_consumer q)

pub empty_queue {ℓ} : {A : Type ℓ} → SpscQueue A
empty_queue = record {
  buffer = λ _. none;
  consumer_start = 0;
  consumer_end = 0;
  closed_flag = false;
  producer_end = 0;
  producer_start = 0;
  start = 0;
  end = 0;
}
