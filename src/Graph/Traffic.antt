-- ===== src/Graph/Traffic.antt =====
-- src/postboy/base/queues/spsc.hpp: Put and Take, and a producer's leaving, one access a step.
-- The third-party queue inside is a parameter, with what its users rely on: it is first in, first out, and
-- says truly whether it took or gave an element.
pub mod Puts
mod Tests
use postboy.Prelude.{
  ℕ, ◌+◌, ◌-◌, ◌<◌, ◌≡◌, refl, ap, sym, subst, ◌∙◌, ◌⊎◌, inl, inr, Option, none, some, List, [],
  ◌∷◌, ◌++◌, ◌^◌, append_assoc, arith, ◌==◌, if◌then◌else◌, Bool, false, ℕ_discrete, Bool-cases,
}
use postboy.Graph.Queues.{Failure, ensure_failed}

pub record ReaderWriterQueue (T : Type 0) : Type 1 where
  pub Inner : Type 0
  pub try_enqueue : T → Inner → Bool × Inner
  pub try_dequeue : Inner → Option T × Inner
  pub contents : Inner → List T
  pub enqueues :
      (x : T) (q : Inner)
      → contents (try_enqueue x q).1
        ≡ (if (try_enqueue x q).0 then contents q ++ (x ∷ []) else contents q)
  pub dequeues :
      (q : Inner)
      → (((try_dequeue q).0 ≡ none) × (contents q ≡ []) × (contents (try_dequeue q).1 ≡ []))
        ⊎ ((x : T) × ((try_dequeue q).0 ≡ some x) × (contents q ≡ x ∷ contents (try_dequeue q).1))

-- Where the consumer stands in `Take`.
pub data Taker (T : Type 0) : Type 0 where
  dequeuing checking : Taker T
  returned : Option T → Taker T

pub none_left :
    {T : Type 0} (n : ℕ) (t : Taker T)
    → t ≡ returned none
    → t ≡ (if n == 0 then returned none else dequeuing)
    → n ≡ 0
none_left n t e f = elim (ℕ_discrete n 0) [
  | yes z ↦ z
  | no ne ↦
      let more : (n == 0) ≡ false = ground (arith, ne) in
      let busy : t ≡ dequeuing = rw more at f in absurd (cc (e, busy))
]

module _ {T : Type 0} (inner_queue : ReaderWriterQueue T) where
  open inner_queue use {Inner, try_enqueue, try_dequeue, contents, enqueues, dequeues}

  -- The queue, what was put into it and what was taken from it.
  pub record Traffic : Type 0 where
    pub inner : Inner
    pub active_producers : ℕ
    pub taker : Taker T
    pub put : List T
    pub taken : List T

  -- The test of `Put`'s loop, and what it does to the queue.
  abbrev pub put_round : T → Traffic → Traffic
  put_round x s =
      let (done, inner) = try_enqueue x s.inner in
      record s { inner = inner; put = if done then s.put ++ (x ∷ []) else s.put }

  -- `DecreaseActiveProducers`: the count, which goes around at zero, and then its ENSURE.
  abbrev pub leave : Traffic → Traffic × Option Failure
  leave s = (
    record s {
      active_producers = if s.active_producers == 0 then 2 ^ 64 - 1 else s.active_producers - 1;
    },
    if s.active_producers == 1 then none else some ensure_failed,
  )

  abbrev pub begin_take : Traffic → Traffic
  begin_take s = record s { taker = dequeuing }

  -- `try_dequeue`, and the check for producers when it failed.
  abbrev pub dequeued : Traffic → Option T × Inner → Traffic
  dequeued s (none, inner) = record s { inner = inner; taker = checking }
  dequeued s (some x, inner) = record s {
    inner = inner;
    taker = returned (some x);
    taken = s.taken ++ (x ∷ []);
  }

  abbrev pub dequeue_round : Traffic → Traffic
  dequeue_round s = dequeued s (try_dequeue s.inner)

  abbrev pub check_round : Traffic → Traffic
  check_round s = record s { taker = if s.active_producers == 0 then returned none else dequeuing }

  pub data Step (s : Traffic) : Traffic → Type 0 where
    puts : (x : T) → 0 < s.active_producers → Step s (put_round x s)
    leaves : 0 < s.active_producers → Step s (leave s).0
    takes : (o : Option T) → s.taker ≡ returned o → Step s (begin_take s)
    dequeues_one : s.taker ≡ dequeuing → Step s (dequeue_round s)
    checks : s.taker ≡ checking → Step s (check_round s)

  pub data Reach (q : Inner) (producers : ℕ) : Traffic → Type 0 where
    here : Reach q producers (record {
      inner = q;
      active_producers = producers;
      taker = dequeuing;
      put = [];
      taken = [];
    })
    next : {s t : Traffic} → Reach q producers s → Step s t → Reach q producers t

  record Conserved (s : Traffic) : Type 0 where
    kept : s.put ≡ s.taken ++ contents s.inner
    ended : s.taker ≡ returned none → s.active_producers ≡ 0

  put_round-Conserved :
      (s : Traffic) (x : T) → 0 < s.active_producers → Conserved s → Conserved (put_round x s)
  put_round-Conserved s x some_one h = elim (Bool-cases (try_enqueue x s.inner).0) [
    | inl e ↦ rw e record {
      kept =
          ap (λ l. l ++ (x ∷ [])) h.kept
          ∙ append_assoc s.taken (contents s.inner) (x ∷ [])
          ∙ ap (λ l. s.taken ++ l) (sym (enqueues x s.inner ∙ rw e refl));
      ended = h.ended;
    }
    | inr e ↦ rw e record {
      kept = h.kept ∙ ap (λ l. s.taken ++ l) (sym (enqueues x s.inner ∙ rw e refl));
      ended = h.ended;
    }
  ]

  dequeued-none :
      (s : Traffic) (o : Option T × Inner)
      → o.0 ≡ none
      → dequeued s o ≡ (record s { inner = o.1; taker = checking })
  dequeued-none s (none, inner) e = refl
  dequeued-none s (some x, inner) e = absurd (cc e)

  dequeued-some :
      (s : Traffic) (o : Option T × Inner) (x : T)
      → o.0 ≡ some x
      → dequeued s o
        ≡ (record s { inner = o.1; taker = returned (some x); taken = s.taken ++ (x ∷ []) })
  dequeued-some s (none, inner) x e = absurd (cc e)
  dequeued-some s (some y, inner) x e = let same : y ≡ x = cc e in rw same refl

  dequeue_round-Conserved : (s : Traffic) → Conserved s → Conserved (dequeue_round s)
  dequeue_round-Conserved s h = elim (dequeues s.inner) [
    | inl (out, was, now) ↦
        subst Conserved (sym (dequeued-none s (try_dequeue s.inner) out)) (record {
          kept = h.kept ∙ ap (λ l. s.taken ++ l) (was ∙ sym now);
          ended = λ e. absurd (cc e);
        })
    | inr (x, out, was) ↦
        subst Conserved (sym (dequeued-some s (try_dequeue s.inner) x out)) (record {
          kept =
              h.kept
              ∙ ap (λ l. s.taken ++ l) was
              ∙ sym (append_assoc s.taken (x ∷ []) (contents (try_dequeue s.inner).1));
          ended = λ e. absurd (cc e);
        })
  ]

  Step-Conserved : {s t : Traffic} → Conserved s → Step s t → Conserved t
  Step-Conserved {s} h (puts x some_one) = put_round-Conserved s x some_one h
  Step-Conserved {s} h (leaves some_one) = record {
    kept = h.kept;
    ended = λ e. absurd (omega (arith, some_one, h.ended e));
  }
  Step-Conserved {s} h (takes o e) = record { kept = h.kept; ended = λ e. absurd (cc e) }
  Step-Conserved {s} h (dequeues_one e) = dequeue_round-Conserved s h
  Step-Conserved {s} h (checks e) = record {
    kept = h.kept;
    ended = λ e. none_left s.active_producers _ e refl;
  }

  -- From an empty queue, however the producers' and the consumer's steps are interleaved: what was taken and
  -- then what is in the queue is what was put, in order, and Take returns nothing only when no producer is
  -- active any more.
  pub Reach-conserved :
      {q : Inner} {producers : ℕ} {s : Traffic}
      → contents q ≡ []
      → Reach q producers s
      → (s.put ≡ s.taken ++ contents s.inner) × (s.taker ≡ returned none → s.active_producers ≡ 0)
  Reach-conserved empty here = (sym empty, λ e. absurd (cc e))
  Reach-conserved empty (next r step) =
      let (kept, ended) = Reach-conserved empty r in
      let h = Step-Conserved (record { kept = kept; ended = ended }) step in (h.kept, h.ended)
