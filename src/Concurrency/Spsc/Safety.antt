-- ===== src/Concurrency/Spsc/Safety.antt =====
-- What every interleaving of the two threads keeps.
use postboy.Prelude.{
  ℕ, ◌%◌, ◌≤◌, ◌<◌, ◌≡◌, refl, ap, sym, subst, ◌∙◌, Option, none, some, List, [], ◌++◌, map,
  append-nil, append_assoc, arith, length, Bool, false,
}
use postboy.Concurrency.Spsc.{
  SpscQueue, close, full, drained, refresh_producer, refresh_consumer, front_slot,
}
use mathlib.Core.List.{map-append}
use postboy.Concurrency.Spsc.Slots.{get_elem?_beyond}
use postboy.Concurrency.Spsc.Invariant.{
  Inv, empty-Inv, refresh_producer-Inv, refresh_consumer-Inv, load_start-Inv, load_end-Inv,
  create-Inv, publish-Inv, drained_front, destroy-Inv, release-Inv, close-Inv, full_room,
}
use postboy.Concurrency.Spsc.Threads.{
  Producer, Consumer, Threads, ProducerStep, ConsumerStep, Step, Reach,
}

-- Values written whose `end_` update is outstanding, and values read whose `start_` update is.
abbrev unpublished {ℓ} : {A : Type ℓ} → Producer A → ℕ
unpublished Producer.created = 1
unpublished _ = 0

abbrev unreleased : Consumer → ℕ
unreleased Consumer.moved_out = 1
unreleased _ = 0

-- A thread that has passed its test may rely on it.
abbrev MayWrite {ℓ} : {A : Type ℓ} → ℕ → SpscQueue A → Producer A → Type 0
MayWrite c q (Producer.ready v) = full c q ≡ false
MayWrite c q _ = Unit {0}

abbrev MayRead {ℓ} : {A : Type ℓ} → SpscQueue A → Consumer → Type 0
MayRead q Consumer.ready = drained q ≡ false
MayRead q _ = Unit {0}

record Safe {ℓ} {A : Type ℓ} (c : ℕ) (t : Threads A) (xs : List A) : Type ℓ where
  inv : Inv c (unpublished t.producer) (unreleased t.consumer) t.queue xs
  history : t.received ++ map some xs ≡ map some t.sent
  may_write : MayWrite c t.queue t.producer
  may_read : MayRead t.queue t.consumer

drained-refresh_producer {ℓ} :
    {A : Type ℓ} (c : ℕ) (q : SpscQueue A) → drained (refresh_producer c q) ≡ drained q
drained-refresh_producer c q = ground arith

MayWrite-close {ℓ} :
    {A : Type ℓ} (c : ℕ) (q : SpscQueue A) (p : Producer A)
    → MayWrite c q p
    → MayWrite c (close q) p
unfolding close
MayWrite-close c q Producer.at_rest m = tt
MayWrite-close c q (Producer.called w v) m = tt
MayWrite-close c q (Producer.refreshed w v) m = tt
MayWrite-close c q (Producer.ready v) m = m
MayWrite-close c q Producer.created m = tt

MayRead-close {ℓ} :
    {A : Type ℓ} (q : SpscQueue A) (p : Consumer) → MayRead q p → MayRead (close q) p
unfolding close
MayRead-close q Consumer.ready m = m
MayRead-close q Consumer.at_rest m = tt
MayRead-close q (Consumer.called w) m = tt
MayRead-close q (Consumer.refreshed w) m = tt
MayRead-close q Consumer.moved_out m = tt

MayWrite_frame {ℓ} :
    {A : Type ℓ} (c : ℕ) (q q' : SpscQueue A) (p : Producer A)
    → full c q' ≡ full c q
    → MayWrite c q p
    → MayWrite c q' p
MayWrite_frame c q q' (Producer.ready v) e m = e ∙ m
MayWrite_frame c q q' Producer.at_rest e m = tt
MayWrite_frame c q q' (Producer.called w v) e m = tt
MayWrite_frame c q q' (Producer.refreshed w v) e m = tt
MayWrite_frame c q q' Producer.created e m = tt

MayRead_frame {ℓ} :
    {A : Type ℓ} (q q' : SpscQueue A) (p : Consumer)
    → drained q' ≡ drained q
    → MayRead q p
    → MayRead q' p
MayRead_frame q q' Consumer.ready e m = e ∙ m
MayRead_frame q q' Consumer.at_rest e m = tt
MayRead_frame q q' (Consumer.called w) e m = tt
MayRead_frame q q' (Consumer.refreshed w) e m = tt
MayRead_frame q q' Consumer.moved_out e m = tt

full-refresh_consumer {ℓ} :
    {A : Type ℓ} (c : ℕ) (q : SpscQueue A) → full c (refresh_consumer q) ≡ full c q
full-refresh_consumer c q = ground arith

drained-close {ℓ} : {A : Type ℓ} (q : SpscQueue A) → drained (close q) ≡ drained q
unfolding close
drained-close q = refl

full-close {ℓ} : {A : Type ℓ} (c : ℕ) (q : SpscQueue A) → full c (close q) ≡ full c q
unfolding close
full-close c q = refl

-- What a step of the producer means to the consumer and to the invariant.
record Produced {ℓ} {A : Type ℓ} (c r : ℕ) (q q' : SpscQueue A) (p' : Producer A) (ys : List A)
    : Type ℓ where
  after : Inv c (unpublished p') r q' ys
  ready : MayWrite c q' p'
  frame : drained q' ≡ drained q

-- What a step of the consumer means to the producer and to the invariant.
record Consumed {ℓ} {A : Type ℓ} (c w : ℕ) (q q' : SpscQueue A) (p' : Consumer)
    (vs : List (Option A)) (xs : List A) : Type ℓ where
  left : List A
  split : map some xs ≡ vs ++ map some left
  after : Inv c w (unreleased p') q' left
  ready : MayRead q' p'
  frame : full c q' ≡ full c q

module _ {ℓ} {A : Type ℓ} {c : ℕ} {closeable : Bool} where
  produce-Produced :
      {q q' : SpscQueue A} {p p' : Producer A} {vs : List A} (r : ℕ) (xs : List A)
      → ProducerStep c closeable q p q' p' vs
      → Inv c (unpublished p) r q xs
      → MayWrite c q p
      → Produced c r q q' p' (xs ++ vs)
  produce-Produced r xs (ProducerStep.call w v) i m =
      rw append-nil (record { after = i; ready = tt; frame = refl })
  produce-Produced r xs (ProducerStep.refresh w v) i m =
      rw append-nil (record {
        after = refresh_producer-Inv i;
        ready = tt;
        frame = drained-refresh_producer c _;
      })
  produce-Produced r xs (ProducerStep.refuse v h) i m =
      rw append-nil (record { after = i; ready = tt; frame = refl })
  produce-Produced r xs (ProducerStep.pass_try v h) i m =
      rw append-nil (record { after = i; ready = ground (arith, h); frame = refl })
  produce-Produced r xs (ProducerStep.spin v h) i m =
      rw append-nil (record { after = load_start-Inv i; ready = tt; frame = refl })
  produce-Produced r xs (ProducerStep.give_up v h k) i m =
      rw append-nil (record { after = i; ready = tt; frame = refl })
  produce-Produced r xs (ProducerStep.pass v h) i m =
      rw append-nil (record { after = i; ready = h; frame = refl })
  produce-Produced r xs (ProducerStep.write v h) i m = record {
    after = create-Inv v i m h;
    ready = tt;
    frame = refl;
  }
  produce-Produced r xs ProducerStep.announce i m =
      rw append-nil (record { after = publish-Inv i; ready = tt; frame = refl })
  produce-Produced r xs (ProducerStep.shut p) i m =
      rw append-nil
        (record { after = close-Inv i; ready = MayWrite-close c _ p m; frame = drained-close _ })

  consume-Consumed :
      {q q' : SpscQueue A} {p p' : Consumer} {vs : List (Option A)} (w : ℕ) (xs : List A)
      → ConsumerStep c closeable q p q' p' vs
      → Inv c w (unreleased p) q xs
      → MayRead q p
      → Consumed c w q q' p' vs xs
  consume-Consumed w xs (ConsumerStep.call b) i m = record {
    left = xs;
    split = refl;
    after = i;
    ready = tt;
    frame = refl;
  }
  consume-Consumed w xs (ConsumerStep.refresh b) i m = record {
    left = xs;
    split = refl;
    after = refresh_consumer-Inv i;
    ready = tt;
    frame = full-refresh_consumer c _;
  }
  consume-Consumed w xs (ConsumerStep.refuse h) i m = record {
    left = xs;
    split = refl;
    after = i;
    ready = tt;
    frame = refl;
  }
  consume-Consumed w xs (ConsumerStep.spin h) i m = record {
    left = xs;
    split = refl;
    after = load_end-Inv i;
    ready = tt;
    frame = refl;
  }
  consume-Consumed w xs (ConsumerStep.give_up h k) i m = record {
    left = xs;
    split = refl;
    after = i;
    ready = tt;
    frame = refl;
  }
  consume-Consumed w xs (ConsumerStep.pass b h) i m = record {
    left = xs;
    split = refl;
    after = i;
    ready = h;
    frame = refl;
  }
  consume-Consumed {q = q} w xs ConsumerStep.read i m =
      let (x, ys, e, f) = drained_front xs i m in
      record {
        left = ys;
        split = ap (λ l. map some l) e ∙ rw f;
        after = destroy-Inv x ys (subst (λ l. Inv c w 0 q l) e i) m;
        ready = tt;
        frame = refl;
      }
  consume-Consumed w xs ConsumerStep.give_back i m = record {
    left = xs;
    split = refl;
    after = release-Inv xs i;
    ready = tt;
    frame = refl;
  }
  consume-Consumed w xs (ConsumerStep.shut p) i m = record {
    left = xs;
    split = refl;
    after = close-Inv i;
    ready = MayRead-close _ p m;
    frame = full-close c _;
  }

  Step-Safe :
      {t u : Threads A} (xs : List A)
      → Step c closeable t u
      → Safe c t xs
      → (ys : List A) × Safe c u ys
  Step-Safe {t = t} xs (Step.produce {q = q} {vs = vs} st) s =
      let d = produce-Produced (unreleased t.consumer) xs st s.inv s.may_write in
      (
        xs ++ vs,
        record {
          inv = d.after;
          history =
              rw (map-append, map-append, ← append_assoc) (ap (λ l. l ++ map some vs) s.history);
          may_write = d.ready;
          may_read = MayRead_frame t.queue q t.consumer d.frame s.may_read;
        },
      )
  Step-Safe {t = t} xs (Step.consume {q = q} {vs = vs} st) s =
      let d = consume-Consumed (unpublished t.producer) xs st s.inv s.may_read in
      (
        d.left,
        record {
          inv = d.after;
          history = rw append_assoc (ap (λ l. t.received ++ l) (sym d.split) ∙ s.history);
          may_write = MayWrite_frame c t.queue q t.producer d.frame s.may_write;
          may_read = d.ready;
        },
      )

  Reach-Safe : {t : Threads A} → 0 < c → Reach c closeable t → (xs : List A) × Safe c t xs
  Reach-Safe h Reach.here =
      ([], record { inv = empty-Inv c h; history = refl; may_write = tt; may_read = tt })
  Reach-Safe h (Reach.next r st) = let (xs, s) = Reach-Safe h r in Step-Safe xs st s

  -- For a positive capacity, under every interleaving the values read, followed by at most `c`
  -- pending ones, are the values written, in order: nothing is lost, duplicated, reordered, or read
  -- from a slot that holds nothing.
  pub Reach-fifo :
      {t : Threads A}
      → 0 < c
      → Reach c closeable t
      → (xs : List A) × (t.received ++ map some xs ≡ map some t.sent) × (length xs ≤ c)
  Reach-fifo h r =
      let (xs, s) = Reach-Safe h r in let i = s.inv.indices in (xs, s.history, omega arith)

  -- For a positive capacity, under every interleaving a producer about to write has a slot in which
  -- no object lives, and a consumer about to read has one in which an object lives.
  pub Reach-slots :
      {t : Threads A}
      → 0 < c
      → Reach c closeable t
      → ((v : A) → t.producer ≡ Producer.ready v → t.queue.buffer (t.queue.producer_end % c) ≡ none)
        × (t.consumer ≡ Consumer.ready → (x : A) × (front_slot c t.queue ≡ some x))
  Reach-slots {t} h r = let (xs, s) = Reach-Safe h r in (write_slot xs s, read_slot xs s)
    where
      write_slot :
          (xs : List A)
          → Safe c t xs
          → (v : A) → t.producer ≡ Producer.ready v
          → t.queue.buffer (t.queue.producer_end % c) ≡ none
      write_slot xs s v e =
          let i : Inv c 0 (unreleased t.consumer) t.queue xs =
            subst (λ p. Inv c (unpublished p) (unreleased t.consumer) t.queue xs) e s.inv in
          let m : full c t.queue ≡ false = subst (λ p. MayWrite c t.queue p) e s.may_write in
          rw i.indices.count
            (i.slots (length xs) (full_room i m) ∙ get_elem?_beyond xs (length xs) (omega arith))

      read_slot :
          (xs : List A)
          → Safe c t xs
          → t.consumer ≡ Consumer.ready
          → (x : A) × (front_slot c t.queue ≡ some x)
      read_slot xs s e =
          let i : Inv c (unpublished t.producer) 0 t.queue xs =
            subst (λ p. Inv c (unpublished t.producer) (unreleased p) t.queue xs) e s.inv in
          let m : drained t.queue ≡ false = subst (λ p. MayRead t.queue p) e s.may_read in
          let (x, ys, a, b) = drained_front xs i m in (x, b)
