-- ===== src/Concurrency/Spsc/Runs.antt =====
-- Any run of calls by one thread is a run of a bounded queue.
use postboy.Prelude.{
  ℕ, ◌+◌, ◌^◌, ◌<◌, ◌≤◌, ◌≡◌, refl, ap, ap₂, List, [], ◌∷◌, arith, length, Bool, true, false, ◌||◌,
  if◌then◌else◌,
}
use postboy.Concurrency.Spsc.{SpscQueue, Popped, try_push, try_pop, close}
use postboy.Concurrency.Spsc.Sequential.{
  Fifo, fifo_push, fifo_pop, Represents, try_push_refines, try_pop_refines,
}

pub data RingCall (A : Type 0) : Type 0 where
  pushes : A → RingCall A
  pops closes : RingCall A

pub data RingAnswer (A : Type 0) : Type 0 where
  pushed : Bool → RingAnswer A
  popped : Popped A → RingAnswer A
  is_closed : RingAnswer A

closed_now :
    (closeable closed flag : Bool)
    → (if closeable then flag else false) ≡ closed
    → (if closeable then true else false) ≡ closeable || closed
closed_now true closed flag e = refl
closed_now false closed flag e = e

module _ {A : Type 0} (capacity : ℕ) (closeable : Bool) where
  abbrev pub perform : RingCall A → SpscQueue A → RingAnswer A × SpscQueue A
  perform (pushes v) q = let (done, q') = try_push capacity closeable q v in (pushed done, q')
  perform pops q = let (out, q') = try_pop capacity q in (popped out, q')
  perform closes q = (is_closed, close q)

  abbrev pub expected : RingCall A → Fifo A → RingAnswer A × Fifo A
  expected (pushes v) f = let (done, f') = fifo_push capacity f v in (pushed done, f')
  expected pops f = let (out, f') = fifo_pop f in (popped out, f')
  expected closes f = (is_closed, record f { closed = closeable || f.closed })

  abbrev pub perform_all : List (RingCall A) → SpscQueue A → List (RingAnswer A) × SpscQueue A
  perform_all [] q = ([], q)
  perform_all (c ∷ cs) q =
      let (a, r) = perform c q in let (later, s) = perform_all cs r in (a ∷ later, s)

  abbrev pub expected_all : List (RingCall A) → Fifo A → List (RingAnswer A) × Fifo A
  expected_all [] f = ([], f)
  expected_all (c ∷ cs) f =
      let (a, g) = expected c f in let (later, h) = expected_all cs g in (a ∷ later, h)

  perform-end :
      (c : RingCall A) (q : SpscQueue A) → (perform c q).1.producer_end ≤ q.producer_end + 1
  unfolding try_push try_pop close
  perform-end (pushes v) q = ground arith
  perform-end pops q = ground arith
  perform-end closes q = omega arith

  close-Represents :
      (q : SpscQueue A) (f : Fifo A)
      → Represents capacity closeable q f
      → Represents capacity closeable (close q) (record f { closed = closeable || f.closed })
  unfolding close
  close-Represents q f r =
      let i = r.inv.indices in
      record {
        inv = record {
          indices = record {
            sized = i.sized;
            producer_view = i.producer_view;
            consumer_view = i.consumer_view;
            taken = i.taken;
            written = i.written;
            ordered = i.ordered;
            fits = i.fits;
            count = i.count;
            small = i.small;
          };
          slots = r.inv.slots;
        };
        flag = closed_now closeable f.closed q.closed_flag r.flag;
      }

  perform-Represents :
      (c : RingCall A) (q : SpscQueue A) (f : Fifo A)
      → Represents capacity closeable q f
      → q.producer_end + 1 < 2 ^ 64
      → ((perform c q).0 ≡ (expected c f).0)
        × Represents capacity closeable (perform c q).1 (expected c f).1
  perform-Represents (pushes v) q f r small =
      let (same, is) = try_push_refines {capacity = capacity} {closeable = closeable} v r small in
      (ap pushed same, is)
  perform-Represents pops q f r small =
      let (same, is) = try_pop_refines {capacity = capacity} {closeable = closeable} r in
      (ap popped same, is)
  perform-Represents closes q f r small = (refl, close-Represents q f r)

  -- On a ring that stands for a bounded queue, any run of TryPush, TryPop and Close by one thread gives the
  -- bounded queue's answers and ends in a ring that stands for what it holds, when the number of values pushed before
  -- and the number of calls of the run, of any kind, are together below 2^64.
  pub perform_all_refines_fifo :
      (cs : List (RingCall A)) (q : SpscQueue A) (f : Fifo A)
      → Represents capacity closeable q f
      → q.producer_end + length cs < 2 ^ 64
      → ((perform_all cs q).0 ≡ (expected_all cs f).0)
        × Represents capacity closeable (perform_all cs q).1 (expected_all cs f).1
  perform_all_refines_fifo [] q f r small = (refl, r)
  perform_all_refines_fifo (c ∷ cs) q f r small =
      let (same, is) = perform-Represents c q f r (omega (arith, small)) in
      let (later, end) =
        perform_all_refines_fifo cs (perform c q).1 (expected c f).1 is
          (omega (arith, small, perform-end c q)) in
      (ap₂ (λ a l. a ∷ l) same later, end)
