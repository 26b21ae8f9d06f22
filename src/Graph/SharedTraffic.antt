-- ===== src/Graph/SharedTraffic.antt =====
-- src/postboy/base/queues/mpmc.hpp: Put and Take of any number of consumers, and a producer's leaving, one access
-- a step. An element is a number. The third-party queue inside is a parameter, with what its users rely on: it
-- says truly whether it took or gave an element, and keeps each as often as it is there, in no promised order.
pub mod Puts
use postboy.Prelude.{
  ℕ, ◌+◌, ◌-◌, ◌<◌, ◌≡◌, refl, sym, ◌∙◌, inl, inr, Option, none, some, List, [], ◌∷◌, ◌++◌, arith,
  ◌==◌, if◌then◌else◌, Bool, Bool-cases, update_at, update_at-cases,
}
use postboy.Graph.Traffic.{Taker, dequeuing, checking, none_left}

-- How often a number is given, or is in a list.
abbrev pub given : ℕ → Option ℕ → ℕ
given y none = 0
given y (some x) = if x == y then 1 else 0

abbrev pub tally : ℕ → List ℕ → ℕ
tally y [] = 0
tally y (x ∷ xs) = given y (some x) + tally y xs

pub record ConcurrentQueue : Type 1 where
  pub Inner : Type 0
  pub try_enqueue : ℕ → Inner → Bool × Inner
  pub try_dequeue : Inner → Option ℕ × Inner
  pub count : ℕ → Inner → ℕ
  pub enqueues :
      (x y : ℕ) (q : Inner)
      → count y (try_enqueue x q).1
        ≡ count y q + (if (try_enqueue x q).0 then given y (some x) else 0)
  pub dequeues :
      (y : ℕ) (q : Inner) → count y q ≡ count y (try_dequeue q).1 + given y (try_dequeue q).0

pub tally-append :
    (y : ℕ) (xs : List ℕ) (x : ℕ) → tally y (xs ++ (x ∷ [])) ≡ tally y xs + given y (some x)
tally-append y [] x = omega arith
tally-append y (z ∷ xs) x = omega (arith, tally-append y xs x)

module _ (inner_queue : ConcurrentQueue) where
  open inner_queue use {Inner, try_enqueue, try_dequeue, count, enqueues, dequeues}

  pub record SharedTraffic : Type 0 where
    pub inner : Inner
    pub active_producers : ℕ
    pub takers : ℕ → Taker ℕ
    pub put : List ℕ
    pub taken : List ℕ

  -- The test of `Put`'s loop, with what it does to the queue, and a producer's leaving.
  abbrev pub put_round : ℕ → SharedTraffic → SharedTraffic
  put_round x s = record s {
    inner = (try_enqueue x s.inner).1;
    put = if (try_enqueue x s.inner).0 then s.put ++ (x ∷ []) else s.put;
  }

  abbrev pub leave : SharedTraffic → SharedTraffic
  leave s = record s { active_producers = s.active_producers - 1 }

  -- A consumer's `Take`: its beginning, a round of `try_dequeue`, and the check for producers.
  abbrev pub begin_take : ℕ → SharedTraffic → SharedTraffic
  begin_take i s = record s { takers = update_at s.takers i dequeuing }

  abbrev pub dequeued : ℕ → SharedTraffic → Option ℕ × Inner → SharedTraffic
  dequeued i s (none, inner) = record s { inner = inner; takers = update_at s.takers i checking }
  dequeued i s (some x, inner) = record s {
    inner = inner;
    takers = update_at s.takers i (Taker.returned (some x));
    taken = s.taken ++ (x ∷ []);
  }

  abbrev pub dequeue_round : ℕ → SharedTraffic → SharedTraffic
  dequeue_round i s = dequeued i s (try_dequeue s.inner)

  abbrev pub check_round : ℕ → SharedTraffic → SharedTraffic
  check_round i s = record s {
    takers =
        update_at s.takers i (if s.active_producers == 0 then Taker.returned none else dequeuing);
  }

  pub data Step (s : SharedTraffic) : SharedTraffic → Type 0 where
    puts : (x : ℕ) → Step s (put_round x s)
    leaves : 0 < s.active_producers → Step s (leave s)
    takes : (i : ℕ) (o : Option ℕ) → s.takers i ≡ Taker.returned o → Step s (begin_take i s)
    dequeues_one : (i : ℕ) → s.takers i ≡ dequeuing → Step s (dequeue_round i s)
    checks : (i : ℕ) → s.takers i ≡ checking → Step s (check_round i s)

  pub data Reach (q : Inner) (producers : ℕ) : SharedTraffic → Type 0 where
    here : Reach q producers (record {
      inner = q;
      active_producers = producers;
      takers = λ _. dequeuing;
      put = [];
      taken = [];
    })
    next : {s t : SharedTraffic} → Reach q producers s → Step s t → Reach q producers t

  record Conserved (s : SharedTraffic) : Type 0 where
    kept : (y : ℕ) → tally y s.put ≡ tally y s.taken + count y s.inner
    ended : (i : ℕ) → s.takers i ≡ Taker.returned none → s.active_producers ≡ 0

  -- A consumer's step to a place that is no end.
  still_ended :
      (s : SharedTraffic) (i : ℕ) (t : Taker ℕ)
      → (t ≡ Taker.returned none → s.active_producers ≡ 0)
      → Conserved s
      → (j : ℕ) → update_at s.takers i t j ≡ Taker.returned none
      → s.active_producers ≡ 0
  still_ended s i t no_end h j e = elim (update_at-cases s.takers i t j) [
    | inl (_, now) ↦ no_end (sym now ∙ e)
    | inr (_, now) ↦ h.ended j (sym now ∙ e)
  ]

  dequeued-Conserved :
      (s : SharedTraffic) (i : ℕ) (o : Option ℕ × Inner)
      → ((y : ℕ) → count y s.inner ≡ count y o.1 + given y o.0)
      → Conserved s
      → Conserved (dequeued i s o)
  dequeued-Conserved s i (none, inner) law h = record {
    kept = λ y. omega (arith, h.kept y, law y);
    ended = still_ended s i checking (λ e. absurd (cc e)) h;
  }
  dequeued-Conserved s i (some x, inner) law h = record {
    kept = λ y. omega (arith, h.kept y, law y, tally-append y s.taken x);
    ended = still_ended s i (Taker.returned (some x)) (λ e. absurd (cc e)) h;
  }

  Step-Conserved : {s t : SharedTraffic} → Conserved s → Step s t → Conserved t
  Step-Conserved {s} h (puts x) = record {
    kept = λ y. elim (Bool-cases (try_enqueue x s.inner).0) [
      | inl e ↦
          let law : count y (try_enqueue x s.inner).1 ≡ count y s.inner + given y (some x) =
            enqueues x y s.inner ∙ rw e refl in
          rw e (omega (arith, h.kept y, law, tally-append y s.put x))
      | inr e ↦
          let law : count y (try_enqueue x s.inner).1 ≡ count y s.inner + 0 =
            enqueues x y s.inner ∙ rw e refl in
          rw e (omega (arith, h.kept y, law))
    ];
    ended = h.ended;
  }
  Step-Conserved {s} h (leaves some_one) = record {
    kept = h.kept;
    ended = λ i e. absurd (omega (arith, some_one, h.ended i e));
  }
  Step-Conserved {s} h (takes i o e) = record {
    kept = h.kept;
    ended = still_ended s i dequeuing (λ f. absurd (cc f)) h;
  }
  Step-Conserved {s} h (dequeues_one i e) =
      dequeued-Conserved s i (try_dequeue s.inner) (λ y. dequeues y s.inner) h
  Step-Conserved {s} h (checks i e) = record {
    kept = h.kept;
    ended = still_ended s i _ (λ f. none_left s.active_producers _ f refl) h;
  }

  -- From an empty queue, however the steps of the producers and of all consumers are interleaved: every element
  -- was taken as often as it was put, less as often as it is in the queue, and no Take returns nothing while a
  -- producer is active.
  pub Reach-tallied :
      {q : Inner} {producers : ℕ} {s : SharedTraffic}
      → ((y : ℕ) → count y q ≡ 0)
      → Reach q producers s
      → ((y : ℕ) → tally y s.put ≡ tally y s.taken + count y s.inner)
        × ((i : ℕ) → s.takers i ≡ Taker.returned none → s.active_producers ≡ 0)
  Reach-tallied empty here = (λ y. omega (arith, empty y), λ i e. absurd (cc e))
  Reach-tallied empty (next r step) =
      let (kept, ended) = Reach-tallied empty r in
      let h = Step-Conserved (record { kept = kept; ended = ended }) step in (h.kept, h.ended)
