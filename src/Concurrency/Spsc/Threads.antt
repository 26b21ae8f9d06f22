-- ===== src/Concurrency/Spsc/Threads.antt =====
-- One producer and one consumer thread, a shared access at a time (sequentially consistent). Each
-- constructor is one access of `TryPush`, `Push`, `TryPop`, `Pop` or `Close`, with the code up to it.
use postboy.Prelude.{
  ℕ, ◌+◌, ◌^◌, ◌<◌, ◌≡◌, Option, List, [], ◌∷◌, ◌++◌, Bool, true, false, not, ◌&&◌, ◌||◌,
}
use postboy.Concurrency.Spsc.{
  SpscQueue, close, full, drained, is_closed_internal, refresh_producer, refresh_consumer, create,
  publish, front_slot, destroy, release, load_start, load_end, empty_queue,
}

-- Where the producer stands. The flag tells `Push`, which waits, from `TryPush`.
pub data Producer {ℓ} (A : Type ℓ) : Type ℓ where
  at_rest : Producer A
  called : Bool → A → Producer A
  refreshed : Bool → A → Producer A
  ready : A → Producer A
  created : Producer A

-- Where the consumer stands. The flag tells `Pop`, which waits, from `TryPop`.
pub data Consumer : Type 0 where
  at_rest : Consumer
  called : Bool → Consumer
  refreshed : Bool → Consumer
  ready : Consumer
  moved_out : Consumer

-- `sent` and `received` record the values written into slots and read out of them, oldest first.
pub record Threads {ℓ} (A : Type ℓ) : Type ℓ where
  pub queue : SpscQueue A
  pub producer : Producer A
  pub consumer : Consumer
  pub sent : List A
  pub received : List (Option A)

abbrev pub initial {ℓ} : {A : Type ℓ} → Threads A
initial = record {
  queue = empty_queue;
  producer = Producer.at_rest;
  consumer = Consumer.at_rest;
  sent = [];
  received = [];
}

-- The producer's accesses, to the queue and its own place; `c` is the capacity.
pub data ProducerStep {ℓ} {A : Type ℓ} (c : ℕ) (closeable : Bool) (q : SpscQueue A)
    : Producer A → SpscQueue A → Producer A → List A → Type ℓ where
  call :
      (waits : Bool) (v : A)
      → ProducerStep c closeable q Producer.at_rest q (Producer.called waits v) []
  refresh :
      (waits : Bool) (v : A)
      → ProducerStep c closeable q
          (Producer.called waits v)
          (refresh_producer c q)
          (Producer.refreshed waits v)
          []
  -- `TryPush` gives up on a full ring or a closed one.
  refuse :
      (v : A)
      → full c q || is_closed_internal closeable q ≡ true
      → ProducerStep c closeable q (Producer.refreshed false v) q Producer.at_rest []
  pass_try :
      (v : A)
      → full c q || is_closed_internal closeable q ≡ false
      → ProducerStep c closeable q (Producer.refreshed false v) q (Producer.ready v) []
  -- `Push` spins while the ring is full and not closed.
  spin :
      (v : A)
      → full c q && not (is_closed_internal closeable q) ≡ true
      → ProducerStep c closeable q
          (Producer.refreshed true v)
          (load_start q)
          (Producer.refreshed true v)
          []
  give_up :
      (v : A)
      → full c q ≡ true
      → is_closed_internal closeable q ≡ true
      → ProducerStep c closeable q (Producer.refreshed true v) q Producer.at_rest []
  pass :
      (v : A)
      → full c q ≡ false
      → ProducerStep c closeable q (Producer.refreshed true v) q (Producer.ready v) []
  -- Fewer than 2^64 values are pushed in all.
  write :
      (v : A)
      → q.producer_end + 1 < 2 ^ 64
      → ProducerStep c closeable q (Producer.ready v) (create c v q) Producer.created (v ∷ [])
  announce : ProducerStep c closeable q Producer.created (publish q) Producer.at_rest []
  shut : (p : Producer A) → ProducerStep c closeable q p (close q) p []

-- The consumer's accesses; what it reads is the content of a slot.
pub data ConsumerStep {ℓ} {A : Type ℓ} (c : ℕ) (closeable : Bool) (q : SpscQueue A)
    : Consumer → SpscQueue A → Consumer → List (Option A) → Type ℓ where
  call : (waits : Bool) → ConsumerStep c closeable q Consumer.at_rest q (Consumer.called waits) []
  refresh :
      (waits : Bool)
      → ConsumerStep c closeable q
          (Consumer.called waits)
          (refresh_consumer q)
          (Consumer.refreshed waits)
          []
  refuse :
      drained q ≡ true → ConsumerStep c closeable q (Consumer.refreshed false) q Consumer.at_rest []
  spin :
      drained q && not (is_closed_internal closeable q) ≡ true
      → ConsumerStep c closeable q
          (Consumer.refreshed true)
          (load_end q)
          (Consumer.refreshed true)
          []
  give_up :
      drained q ≡ true
      → is_closed_internal closeable q ≡ true
      → ConsumerStep c closeable q (Consumer.refreshed true) q Consumer.at_rest []
  pass :
      (waits : Bool)
      → drained q ≡ false
      → ConsumerStep c closeable q (Consumer.refreshed waits) q Consumer.ready []
  read :
      ConsumerStep c closeable q Consumer.ready
        (destroy c q)
        Consumer.moved_out
        (front_slot c q ∷ [])
  give_back : ConsumerStep c closeable q Consumer.moved_out (release q) Consumer.at_rest []
  shut : (p : Consumer) → ConsumerStep c closeable q p (close q) p []

-- Either thread moves.
pub data Step {ℓ} {A : Type ℓ} (c : ℕ) (closeable : Bool) (t : Threads A) : Threads A → Type ℓ where
  produce :
      {q : SpscQueue A} {p : Producer A} {vs : List A}
      → ProducerStep c closeable t.queue t.producer q p vs
      → Step c closeable t (record t { queue = q; producer = p; sent = t.sent ++ vs })
  consume :
      {q : SpscQueue A} {p : Consumer} {vs : List (Option A)}
      → ConsumerStep c closeable t.queue t.consumer q p vs
      → Step c closeable t (record t { queue = q; consumer = p; received = t.received ++ vs })

pub data Reach {ℓ} {A : Type ℓ} (c : ℕ) (closeable : Bool) : Threads A → Type ℓ where
  here : Reach c closeable initial
  next : {t u : Threads A} → Reach c closeable t → Step c closeable t u → Reach c closeable u
