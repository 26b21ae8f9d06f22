-- ===== src/Graph/Traffic/Puts.antt =====
-- src/postboy/base/queues/spsc.hpp: whole calls of Put and Take, which try one access again until it succeeds.
use postboy.Prelude.{
  ℕ, ◌<◌, ◌≡◌, refl, ap, sym, ◌∙◌, inl, inr, Option, none, some, List, [], ◌∷◌, ◌++◌, append-nil,
  append_assoc, arith, ◌==◌, if◌then◌else◌, Bool, true, false, Bool-cases,
}
use postboy.Graph.Traffic.{
  ReaderWriterQueue, Taker, dequeuing, checking, Traffic, put_round, leave, begin_take, dequeued,
  dequeue_round, check_round, Reach-conserved,
}
use postboy.Graph.Traffic as Queue

module _ {T : Type 0} where
  -- The element that `Put` still holds, and the one that `Take` returns.
  abbrev pub held : Option T → List T
  held none = []
  held (some x) = x ∷ []

  abbrev pub in_hand : Taker T → List T
  in_hand (Taker.returned o) = held o
  in_hand _ = []

module _ {T : Type 0} (inner_queue : ReaderWriterQueue T) where
  open inner_queue use {Inner, try_enqueue, try_dequeue, contents}

  -- The queue, the element of the call of `Put` that runs, the elements that it was called with, and those that
  -- the calls of `Take` gave their caller.
  pub record Session : Type 0 where
    pub traffic : Traffic inner_queue
    pub putting : Option T
    pub asked : List T
    pub received : List T

  abbrev pub begin_put : T → Session → Session
  begin_put x s = record s { putting = some x; asked = s.asked ++ (x ∷ []) }

  -- A round of `Put`'s loop: the same element again, until the queue takes it.
  abbrev pub put_again : T → Session → Session
  put_again x s = record s {
    traffic = put_round inner_queue x s.traffic;
    putting = if (try_enqueue x s.traffic.inner).0 then none else some x;
  }

  -- `Take` returns to its caller, who calls it again.
  abbrev pub end_take : Option T → Session → Session
  end_take o s = record s {
    traffic = begin_take inner_queue s.traffic;
    received = s.received ++ held o;
  }

  pub data Step (s : Session) : Session → Type 0 where
    calls_put : (x : T) → s.putting ≡ none → 0 < s.traffic.active_producers → Step s (begin_put x s)
    puts : (x : T) → s.putting ≡ some x → Step s (put_again x s)
    leaves :
        s.putting ≡ none
        → 0 < s.traffic.active_producers
        → Step s (record s { traffic = (leave inner_queue s.traffic).0 })
    dequeues_one :
        s.traffic.taker ≡ dequeuing
        → Step s (record s { traffic = dequeue_round inner_queue s.traffic })
    checks :
        s.traffic.taker ≡ checking
        → Step s (record s { traffic = check_round inner_queue s.traffic })
    takes : (o : Option T) → s.traffic.taker ≡ Taker.returned o → Step s (end_take o s)

  pub data Reach (q : Inner) (producers : ℕ) : Session → Type 0 where
    here : Reach q producers (record {
      traffic = record {
        inner = q;
        active_producers = producers;
        taker = dequeuing;
        put = [];
        taken = [];
      };
      putting = none;
      asked = [];
      received = [];
    })
    next : {s t : Session} → Reach q producers s → Step s t → Reach q producers t

  record Follows (q : Inner) (producers : ℕ) (s : Session) : Type 0 where
    queue : Queue.Reach inner_queue q producers s.traffic
    all_asked : s.asked ≡ s.traffic.put ++ held s.putting
    all_taken : s.traffic.taken ≡ s.received ++ in_hand s.traffic.taker
    active : (x : T) → s.putting ≡ some x → 0 < s.traffic.active_producers

  dequeued-taken :
      (t : Traffic inner_queue) (o : Option T × Inner) (got : List T)
      → t.taken ≡ got
      → (dequeued inner_queue t o).taken ≡ got ++ in_hand (dequeued inner_queue t o).taker
  dequeued-taken t (none, inner) got e = e ∙ sym (append-nil got)
  dequeued-taken t (some x, inner) got e = ap (λ l. l ++ (x ∷ [])) e

  dequeued-put :
      (t : Traffic inner_queue) (o : Option T × Inner)
      → ((dequeued inner_queue t o).put ≡ t.put)
        × ((dequeued inner_queue t o).active_producers ≡ t.active_producers)
  dequeued-put t (none, inner) = (refl, refl)
  dequeued-put t (some x, inner) = (refl, refl)

  nothing_in_hand : (n : Bool) → in_hand {T = T} (if n then Taker.returned none else dequeuing) ≡ []
  nothing_in_hand true = refl
  nothing_in_hand false = refl

  Step-Follows :
      {q : Inner} {producers : ℕ} {s t : Session}
      → Follows q producers s
      → Step s t
      → Follows q producers t
  Step-Follows {s = s} h (calls_put x free some_one) = record {
    queue = h.queue;
    all_asked =
        ap (λ l. l ++ (x ∷ []))
          (h.all_asked ∙ ap (λ o. s.traffic.put ++ held o) free ∙ append-nil s.traffic.put);
    all_taken = h.all_taken;
    active = λ _ _. some_one;
  }
  Step-Follows {s = s} h (puts x at) =
      let queue = Queue.Reach.next h.queue (Queue.Step.puts x (h.active x at)) in
      let asked = h.all_asked ∙ ap (λ o. s.traffic.put ++ held o) at in
      elim (Bool-cases (try_enqueue x s.traffic.inner).0) [
        | inl e ↦ record {
          queue = queue;
          all_asked = rw e (asked ∙ sym (append-nil (s.traffic.put ++ (x ∷ []))));
          all_taken = h.all_taken;
          active = λ _ _. h.active x at;
        }
        | inr e ↦ record {
          queue = queue;
          all_asked = rw e asked;
          all_taken = h.all_taken;
          active = λ _ _. h.active x at;
        }
      ]
  Step-Follows {s = s} h (leaves free some_one) = record {
    queue = Queue.Reach.next h.queue (Queue.Step.leaves some_one);
    all_asked = h.all_asked;
    all_taken = h.all_taken;
    active = λ x e. absurd (cc (free, e));
  }
  Step-Follows {s = s} h (dequeues_one at) =
      let (same_put, same_active) = dequeued-put s.traffic (try_dequeue s.traffic.inner) in
      let got : s.traffic.taken ≡ s.received =
        h.all_taken ∙ ap (λ t. s.received ++ in_hand t) at ∙ append-nil s.received in
      record {
        queue = Queue.Reach.next h.queue (Queue.Step.dequeues_one at);
        all_asked = h.all_asked ∙ ap (λ l. l ++ held s.putting) (sym same_put);
        all_taken = dequeued-taken s.traffic (try_dequeue s.traffic.inner) s.received got;
        active = λ x e. let some_one = h.active x e in omega (arith, some_one, same_active);
      }
  Step-Follows {s = s} h (checks at) = record {
    queue = Queue.Reach.next h.queue (Queue.Step.checks at);
    all_asked = h.all_asked;
    all_taken =
        h.all_taken
        ∙ ap (λ t. s.received ++ in_hand t) at
        ∙ ap (λ l. s.received ++ l) (sym (nothing_in_hand (s.traffic.active_producers == 0)));
    active = h.active;
  }
  Step-Follows {s = s} h (takes o at) = record {
    queue = Queue.Reach.next h.queue (Queue.Step.takes o at);
    all_asked = h.all_asked;
    all_taken =
        h.all_taken
        ∙ ap (λ t. s.received ++ in_hand t) at
        ∙ sym (append-nil (s.received ++ held o));
    active = h.active;
  }

  Reach-Follows :
      {q : Inner} {producers : ℕ} {s : Session} → Reach q producers s → Follows q producers s
  Reach-Follows here = record {
    queue = Queue.Reach.here;
    all_asked = refl;
    all_taken = refl;
    active = λ x e. absurd (cc e);
  }
  Reach-Follows (next r step) = Step-Follows (Reach-Follows r) step

  -- From an empty queue, however the rounds of the producer's calls of Put and of the consumer's calls of Take are
  -- interleaved, also when the queue refuses elements: what the calls of Take gave their caller, then what the
  -- current one is about to give, then what is in the queue and then what the current Put still holds are, in order,
  -- the elements that Put was called with; and Take gives nothing only when no producer is active any more.
  pub Reach-delivered :
      {q : Inner} {producers : ℕ} {s : Session}
      → contents q ≡ []
      → Reach q producers s
      → (s.asked
          ≡ s.received ++ (in_hand s.traffic.taker ++ (contents s.traffic.inner ++ held s.putting)))
        × (s.traffic.taker ≡ Taker.returned none → s.traffic.active_producers ≡ 0)
  Reach-delivered {s = s} empty r =
      let h = Reach-Follows r in
      let (kept, ended) = Reach-conserved inner_queue empty h.queue in
      (
        h.all_asked
            ∙ ap (λ l. l ++ held s.putting)
                (kept ∙ ap (λ l. l ++ contents s.traffic.inner) h.all_taken)
            ∙ append_assoc (s.received ++ in_hand s.traffic.taker) (contents s.traffic.inner)
                (held s.putting)
            ∙ append_assoc s.received (in_hand s.traffic.taker)
                (contents s.traffic.inner ++ held s.putting),
        ended,
      )
