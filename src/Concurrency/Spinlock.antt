-- ===== src/Concurrency/Spinlock.antt =====
-- src/common/concurrency/spinlock.hpp: any number of threads, one access to `lock_` a step.
pub mod Exclusion
mod Tests
use postboy.Prelude.{update_at, ℕ, ◌≡◌, if◌then◌else◌, Bool, true, false}

-- Where a thread stands: outside, before the exchange of `lock` or of `try_lock`, in `lock`'s loop that only
-- reads, behind `try_lock`'s read, or in the section behind the lock.
pub data Thread : Type 0 where
  outside exchanging spinning trying holding : Thread

pub record Spinlock : Type 0 where
  pub locked : Bool
  pub threads : ℕ → Thread

abbrev pub start : Spinlock
start = record { locked = false; threads = λ _. Thread.outside }

abbrev pub at : ℕ → Thread → Spinlock → Spinlock
at i t s = record { locked = s.locked; threads = update_at s.threads i t }

-- `lock_.exchange(true)`, in `lock` and in `try_lock`, which gives up where `lock` goes on reading.
abbrev pub exchange : ℕ → Thread → Spinlock → Spinlock
exchange i otherwise s = record {
  locked = true;
  threads = update_at s.threads i (if s.locked then otherwise else Thread.holding);
}

-- The read in `lock`'s inner loop, and the first read of `try_lock`.
abbrev pub spin : ℕ → Spinlock → Spinlock
spin i s = at i (if s.locked then Thread.spinning else Thread.exchanging) s

abbrev pub peek : ℕ → Spinlock → Spinlock
peek i s = at i (if s.locked then Thread.outside else Thread.trying) s

abbrev pub unlock : ℕ → Spinlock → Spinlock
unlock i s = record { locked = false; threads = update_at s.threads i Thread.outside }

-- Only a thread that has the lock unlocks it.
pub data Step (s : Spinlock) : Spinlock → Type 0 where
  locks : (i : ℕ) → s.threads i ≡ Thread.outside → Step s (at i Thread.exchanging s)
  exchanges : (i : ℕ) → s.threads i ≡ Thread.exchanging → Step s (exchange i Thread.spinning s)
  spins : (i : ℕ) → s.threads i ≡ Thread.spinning → Step s (spin i s)
  tries : (i : ℕ) → s.threads i ≡ Thread.outside → Step s (peek i s)
  tries_exchange : (i : ℕ) → s.threads i ≡ Thread.trying → Step s (exchange i Thread.outside s)
  unlocks : (i : ℕ) → s.threads i ≡ Thread.holding → Step s (unlock i s)

pub data Reach : Spinlock → Type 0 where
  here : Reach start
  next : {s t : Spinlock} → Reach s → Step s t → Reach t
