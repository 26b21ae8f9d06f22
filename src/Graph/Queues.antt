-- ===== src/Graph/Queues.antt =====
-- src/postboy/base/queues/queue.hpp, spsc.hpp and mpmc.hpp: counting the producers of a queue.
-- A queue is known by its address, its place in the list of queues; a type is known by a number.
use postboy.Prelude.{
  ℕ, ◌+◌, ◌-◌, ◌%◌, ◌^◌, Option, none, some, List, get_elem?, set, ◌==◌, if◌then◌else◌, Bool, true,
  false, not, ◌&&◌,
}

-- What an exception or an abort says; dereferencing nothing is undefined in the source.
pub data Failure : Type 0 where
  ensure_failed invalid_argument out_of_range runtime_error panicked null_dereference : Failure

pub data QueueKind : Type 0 where
  spsc mpmc : QueueKind

pub record Queue : Type 0 where
  pub kind : QueueKind
  pub element : ℕ
  pub active_producers : ℕ

abbrev pub is_spsc : QueueKind → Bool
is_spsc spsc = true
is_spsc mpmc = false

abbrev pub with_active : Queue → ℕ → Queue
with_active q n = record { kind = q.kind; element = q.element; active_producers = n }

-- `fetch_add`; in an SPSC queue it fails, the count raised, when there was a producer.
unfoldable pub increase_active_producers : Queue → Queue × Option Failure
increase_active_producers q = (
  with_active q ((q.active_producers + 1) % 2 ^ 64),
  if is_spsc q.kind && not (q.active_producers == 0) then some ensure_failed else none,
)

-- `fetch_sub`; in an SPSC queue it fails, the count lowered, when there was not one producer.
unfoldable pub decrease_active_producers : Queue → Queue × Option Failure
decrease_active_producers q = (
  with_active q ((q.active_producers + (2 ^ 64 - 1)) % 2 ^ 64),
  if is_spsc q.kind && not (q.active_producers == 1) then some ensure_failed else none,
)

abbrev pub Queues : Type 0
Queues = List Queue

-- The boxed queue of a port: the type it carries and the address it holds.
pub record Port : Type 0 where
  pub element : ℕ
  pub impl : Option ℕ

abbrev pub with_impl : Port → Option ℕ → Port
with_impl p impl = record { element = p.element; impl = impl }

abbrev pub is_some : Option ℕ → Bool
is_some none = false
is_some (some a) = true

unfoldable pub valid : Port → Bool
valid p = is_some p.impl

abbrev pub Changed : Type 0
Changed = Port × Queues × Option Failure

abbrev store : Queues → ℕ → Queue × Option Failure → Queues × Option Failure
store qs address (q, failure) = (set qs address q, failure)

abbrev pub change_at :
    (Queue → Queue × Option Failure) → Queues → ℕ → Option Queue → Queues × Option Failure
change_at change qs address none = (qs, some null_dereference)
change_at change qs address (some q) = store qs address (change q)

-- `Clear`: on a failure the port keeps its queue.
abbrev pub cleared : Port → Queues × Option Failure → Changed
cleared p (qs, none) = (with_impl p none, qs, none)
cleared p (qs, some failure) = (p, qs, some failure)

abbrev pub clear_at : Port → Queues → Option ℕ → Changed
clear_at p qs none = (with_impl p none, qs, none)
clear_at p qs (some address) =
    cleared p (change_at decrease_active_producers qs address (get_elem? qs address))

unfoldable pub clear_producer : Port → Queues → Changed
unfolding decrease_active_producers
clear_producer p qs = clear_at p qs p.impl

-- The rest of `SetImpl`, once the queue's count is raised.
abbrev pub attached : Port → ℕ → Queues × Option Failure → Changed
attached p address (qs, none) = (with_impl p (some address), qs, none)
attached p address (qs, some failure) = (p, qs, some failure)

-- The two casts: they succeed on a queue of the port's type.
abbrev pub attach : Port → Queues → ℕ → Option Queue → Changed
attach p qs address none = (p, qs, some invalid_argument)
attach p qs address (some q) =
    let raised = change_at increase_active_producers qs address (some q) in
    if q.element == p.element then attached p address raised else (p, qs, some invalid_argument)

-- A null pointer casts to nothing.
abbrev pub attach_impl : Option ℕ → Changed → Changed
attach_impl impl (p, qs, some failure) = (p, qs, some failure)
attach_impl none (p, qs, none) = (p, qs, some invalid_argument)
attach_impl (some address) (p, qs, none) = attach p qs address (get_elem? qs address)

unfoldable pub set_impl_producer : Port → Queues → Option ℕ → Changed
unfolding clear_producer increase_active_producers
set_impl_producer p qs impl = attach_impl impl (clear_producer p qs)

-- The consumer's box counts nothing.
abbrev pub attach_consumer : Port → Queues → ℕ → Option Queue → Changed
attach_consumer p qs address none = (p, qs, some invalid_argument)
attach_consumer p qs address (some q) =
    if q.element == p.element
    then (with_impl p (some address), qs, none)
    else (p, qs, some invalid_argument)

unfoldable pub clear_consumer : Port → Port
clear_consumer p = with_impl p none

abbrev attach_consumer_impl : Port → Queues → Option ℕ → Changed
attach_consumer_impl p qs none = (p, qs, some invalid_argument)
attach_consumer_impl p qs (some address) = attach_consumer p qs address (get_elem? qs address)

unfoldable pub set_impl_consumer : Port → Queues → Option ℕ → Changed
unfolding clear_consumer
set_impl_consumer p qs impl = attach_consumer_impl (clear_consumer p) qs impl
