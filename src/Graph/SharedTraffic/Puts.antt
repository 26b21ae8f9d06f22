-- ===== src/Graph/SharedTraffic/Puts.antt =====
-- src/postboy/base/queues/mpmc.hpp: whole calls of Put and Take of any number of producers and consumers, which try
-- one access again until it succeeds.
use postboy.Prelude.{
  ℕ, zero, suc, ◌+◌, ◌≤◌, ◌<◌, ◌≡◌, refl, inl, inr, Option, none, some, List, [], ◌∷◌, ◌++◌, arith,
  ◌==◌, if◌then◌else◌, Bool, true, false, ℕ_discrete, Bool-cases, update_at,
}
use postboy.Graph.Traffic.{Taker, dequeuing, checking}
use postboy.Graph.SharedTraffic.{
  given, tally, tally-append, ConcurrentQueue, SharedTraffic, put_round, leave, begin_take,
  dequeued, dequeue_round, check_round, Reach-tallied,
}
use postboy.Graph.SharedTraffic as Queue

-- The sum over the first n.
abbrev pub total : {A : Type 0} → (A → ℕ) → (ℕ → A) → ℕ → ℕ
total w f zero = 0
total w f (suc n) = w (f n) + total w f n

total-beyond :
    {A : Type 0} (w : A → ℕ) (f : ℕ → A) (i : ℕ) (a : A) (n : ℕ)
    → n ≤ i
    → total w (update_at f i a) n ≡ total w f n
total-beyond w f i a zero h = refl
total-beyond w f i a (suc n) h =
    let ne : (i == n) ≡ false = ground (arith, h) in
    let rest = total-beyond w f i a n (omega (arith, h)) in rw (ne, rest) refl

total-update :
    {A : Type 0} (w : A → ℕ) (f : ℕ → A) (i : ℕ) (a : A) (n : ℕ)
    → i < n
    → total w (update_at f i a) n + w (f i) ≡ total w f n + w a
total-update w f i a zero h = absurd (omega (arith, h))
total-update w f i a (suc n) h = elim (ℕ_discrete i n) [
  | yes e ↦
      let same : (i == n) ≡ true = ground (arith, e) in
      let rest = total-beyond w f i a n (omega (arith, e)) in rw (same, rest, e) (omega arith)
  | no ne ↦
      let other : (i == n) ≡ false = ground (arith, ne) in
      let rest = total-update w f i a n (omega (arith, h, ne)) in rw other (omega (arith, rest))
]

-- How often a number is what a call of `Take` is about to give.
abbrev pub in_hand : ℕ → Taker ℕ → ℕ
in_hand y (Taker.returned o) = given y o
in_hand y _ = 0

module _ (inner_queue : ConcurrentQueue) where
  open inner_queue use {Inner, try_enqueue, try_dequeue, count}

  -- The queue, the element of each producer's call of `Put` that runs, the elements that it was called with, and
  -- those that the calls of `Take` gave their callers.
  pub record Session : Type 0 where
    pub traffic : SharedTraffic inner_queue
    pub putting : ℕ → Option ℕ
    pub asked : List ℕ
    pub received : List ℕ

  abbrev pub begin_put : ℕ → ℕ → Session → Session
  begin_put i x s = record s {
    putting = update_at s.putting i (some x);
    asked = s.asked ++ (x ∷ []);
  }

  -- A round of `Put`'s loop: the same element again, until the queue takes it.
  abbrev pub put_again : ℕ → ℕ → Session → Session
  put_again i x s = record s {
    traffic = put_round inner_queue x s.traffic;
    putting = update_at s.putting i (if (try_enqueue x s.traffic.inner).0 then none else some x);
  }

  abbrev pub received_with : List ℕ → Option ℕ → List ℕ
  received_with l none = l
  received_with l (some x) = l ++ (x ∷ [])

  -- `Take` returns to its caller, who calls it again.
  abbrev pub end_take : ℕ → Option ℕ → Session → Session
  end_take i o s = record s {
    traffic = begin_take inner_queue i s.traffic;
    received = received_with s.received o;
  }

  pub data Step (producers consumers : ℕ) (s : Session) : Session → Type 0 where
    calls_put :
        (i x : ℕ)
        → i < producers
        → s.putting i ≡ none
        → Step producers consumers s (begin_put i x s)
    puts :
        (i x : ℕ)
        → i < producers
        → s.putting i ≡ some x
        → Step producers consumers s (put_again i x s)
    leaves :
        0 < s.traffic.active_producers
        → Step producers consumers s (record s { traffic = leave inner_queue s.traffic })
    dequeues_one :
        (i : ℕ)
        → i < consumers
        → s.traffic.takers i ≡ dequeuing
        → Step producers consumers s (record s { traffic = dequeue_round inner_queue i s.traffic })
    checks :
        (i : ℕ)
        → i < consumers
        → s.traffic.takers i ≡ checking
        → Step producers consumers s (record s { traffic = check_round inner_queue i s.traffic })
    takes :
        (i : ℕ) (o : Option ℕ)
        → i < consumers
        → s.traffic.takers i ≡ Taker.returned o
        → Step producers consumers s (end_take i o s)

  pub data Reach (producers consumers : ℕ) (q : Inner) : Session → Type 0 where
    here : Reach producers consumers q (record {
      traffic = record {
        inner = q;
        active_producers = producers;
        takers = λ _. dequeuing;
        put = [];
        taken = [];
      };
      putting = λ _. none;
      asked = [];
      received = [];
    })
    next :
        {s t : Session}
        → Reach producers consumers q s
        → Step producers consumers s t
        → Reach producers consumers q t

  record Follows (producers consumers : ℕ) (q : Inner) (s : Session) : Type 0 where
    queue : Queue.Reach inner_queue q producers s.traffic
    all_asked :
        (y : ℕ) → tally y s.asked ≡ tally y s.traffic.put + total (given y) s.putting producers
    all_taken :
        (y : ℕ)
        → tally y s.traffic.taken
          ≡ tally y s.received + total (in_hand y) s.traffic.takers consumers

  -- What was taken and what the consumers are about to give, behind a dequeue.
  dequeued-taken :
      (y i consumers : ℕ) (t : SharedTraffic inner_queue) (o : Option ℕ × Inner)
      → i < consumers
      → t.takers i ≡ dequeuing
      → tally y (dequeued inner_queue i t o).taken + total (in_hand y) t.takers consumers
        ≡ tally y t.taken + total (in_hand y) (dequeued inner_queue i t o).takers consumers
  dequeued-taken y i consumers t (none, inner) lt at =
      let moved = total-update (in_hand y) t.takers i checking consumers lt in
      let moved0 = rw at at moved in omega (arith, moved0)
  dequeued-taken y i consumers t (some x, inner) lt at =
      let moved = total-update (in_hand y) t.takers i (Taker.returned (some x)) consumers lt in
      let moved0 = rw at at moved in omega (arith, moved0, tally-append y t.taken x)

  dequeued-put :
      (i : ℕ) (t : SharedTraffic inner_queue) (o : Option ℕ × Inner)
      → (dequeued inner_queue i t o).put ≡ t.put
  dequeued-put i t (none, inner) = refl
  dequeued-put i t (some x, inner) = refl

  nothing_in_hand :
      (y : ℕ) (b : Bool) → in_hand y (if b then Taker.returned none else dequeuing) ≡ 0
  nothing_in_hand y true = refl
  nothing_in_hand y false = refl

  tally-received :
      (y : ℕ) (l : List ℕ) (o : Option ℕ) → tally y (received_with l o) ≡ tally y l + given y o
  tally-received y l none = omega arith
  tally-received y l (some x) = tally-append y l x

  total-nothing : {A : Type 0} (w : A → ℕ) (a : A) (n : ℕ) → w a ≡ 0 → total w (λ _. a) n ≡ 0
  total-nothing w a zero e = refl
  total-nothing w a (suc n) e = rw (e, total-nothing w a n e) refl

  Step-Follows :
      {producers consumers : ℕ} {q : Inner} {s t : Session}
      → Follows producers consumers q s
      → Step producers consumers s t
      → Follows producers consumers q t
  Step-Follows {producers} {s = s} h (calls_put i x lt free) = record {
    queue = h.queue;
    all_asked = λ y.
        let moved = total-update (given y) s.putting i (some x) producers lt in
        let moved0 = rw free at moved in
        omega (arith, h.all_asked y, moved0, tally-append y s.asked x);
    all_taken = h.all_taken;
  }
  Step-Follows {producers} {s = s} h (puts i x lt at) = record {
    queue = Queue.Reach.next h.queue (Queue.Step.puts x);
    all_asked = λ y. elim (Bool-cases (try_enqueue x s.traffic.inner).0) [
      | inl e ↦
          let moved = total-update (given y) s.putting i none producers lt in
          let moved0 = rw at at moved in
          rw e (omega (arith, h.all_asked y, moved0, tally-append y s.traffic.put x))
      | inr e ↦
          let moved = total-update (given y) s.putting i (some x) producers lt in
          let moved0 = rw at at moved in rw e (omega (arith, h.all_asked y, moved0))
    ];
    all_taken = h.all_taken;
  }
  Step-Follows h (leaves some_one) = record {
    queue = Queue.Reach.next h.queue (Queue.Step.leaves some_one);
    all_asked = h.all_asked;
    all_taken = h.all_taken;
  }
  Step-Follows {consumers = consumers} {s = s} h (dequeues_one i lt at) = record {
    queue = Queue.Reach.next h.queue (Queue.Step.dequeues_one i at);
    all_asked = λ y. rw (dequeued-put i s.traffic (try_dequeue s.traffic.inner)) (h.all_asked y);
    all_taken = λ y.
        let moved = dequeued-taken y i consumers s.traffic (try_dequeue s.traffic.inner) lt at in
        omega (arith, h.all_taken y, moved);
  }
  Step-Follows {consumers = consumers} {s = s} h (checks i lt at) = record {
    queue = Queue.Reach.next h.queue (Queue.Step.checks i at);
    all_asked = h.all_asked;
    all_taken = λ y.
        let b = s.traffic.active_producers == 0 in
        let moved =
          total-update (in_hand y) s.traffic.takers i (if b then Taker.returned none else dequeuing)
            consumers lt in
        let moved0 = rw at at moved in omega (arith, h.all_taken y, moved0, nothing_in_hand y b);
  }
  Step-Follows {consumers = consumers} {s = s} h (takes i o lt at) = record {
    queue = Queue.Reach.next h.queue (Queue.Step.takes i o at);
    all_asked = h.all_asked;
    all_taken = λ y.
        let moved = total-update (in_hand y) s.traffic.takers i dequeuing consumers lt in
        let moved0 = rw at at moved in
        omega (arith, h.all_taken y, moved0, tally-received y s.received o);
  }

  Reach-Follows :
      {producers consumers : ℕ} {q : Inner} {s : Session}
      → Reach producers consumers q s
      → Follows producers consumers q s
  Reach-Follows {producers} {consumers} here = record {
    queue = Queue.Reach.here;
    all_asked = λ y. omega (arith, total-nothing (given y) none producers refl);
    all_taken = λ y. omega (arith, total-nothing (in_hand y) dequeuing consumers refl);
  }
  Reach-Follows (next r step) = Step-Follows (Reach-Follows r) step

  -- From an empty queue, however the rounds of the calls of Put and Take of all producers and consumers are
  -- interleaved, also when the queue refuses elements: Put was called with every element as often as calls of Take
  -- gave it their callers, are about to give it, as it is in the queue, and as running calls of Put still hold it;
  -- and Take gives nothing only when no producer is active any more.
  pub Reach-delivered_each :
      {producers consumers : ℕ} {q : Inner} {s : Session}
      → ((y : ℕ) → count y q ≡ 0)
      → Reach producers consumers q s
      → ((y : ℕ)
          → tally y s.asked
            ≡ ((tally y s.received + total (in_hand y) s.traffic.takers consumers)
                + count y s.traffic.inner)
              + total (given y) s.putting producers)
        × ((i : ℕ) → s.traffic.takers i ≡ Taker.returned none → s.traffic.active_producers ≡ 0)
  Reach-delivered_each empty r =
      let h = Reach-Follows r in
      let (kept, ended) = Reach-tallied inner_queue empty h.queue in
      (λ y. omega (arith, h.all_asked y, h.all_taken y, kept y), ended)
