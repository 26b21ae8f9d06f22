-- ===== src/Concurrency/Spinlock/Exclusion.antt =====
-- At most one thread is behind the lock.
use postboy.Prelude.{
  ℕ, ◌≡◌, ◌≢◌, refl, ap, sym, subst, ◌∙◌, ◌↔◌, inl, inr, if◌then◌else◌, Bool, true, false,
  Bool-cases, update_at, update_at-cases,
}
use postboy.Concurrency.Spinlock.{Thread, Spinlock, at, exchange, unlock, Step, Reach}

-- The lock is taken exactly while one thread holds it.
record Held (s : Spinlock) : Type 0 where
  alone : (i j : ℕ) → s.threads i ≡ Thread.holding → s.threads j ≡ Thread.holding → i ≡ j
  taken : (i : ℕ) → s.threads i ≡ Thread.holding → s.locked ≡ true
  holder : s.locked ≡ true → (i : ℕ) × (s.threads i ≡ Thread.holding)

-- A thread that has no lock before or after a step changes nothing.
passing :
    (s : Spinlock) (i : ℕ) (t : Thread)
    → s.threads i ≢ Thread.holding
    → t ≢ Thread.holding
    → Held s
    → Held (at i t s)
passing s i t before after h = record {
  alone = λ j k a b. h.alone j k (was j a) (was k b);
  taken = λ j a. h.taken j (was j a);
  holder = λ l. let (j, e) = h.holder l in (j, still j e);
}
  where
    was : (j : ℕ) → update_at s.threads i t j ≡ Thread.holding → s.threads j ≡ Thread.holding
    was j e = elim (update_at-cases s.threads i t j) [
      | inl (same, now) ↦ absurd (after (sym now ∙ e))
      | inr (ne, now) ↦ sym now ∙ e
    ]

    still : (j : ℕ) → s.threads j ≡ Thread.holding → update_at s.threads i t j ≡ Thread.holding
    still j e = elim (update_at-cases s.threads i t j) [
      | inl (same, now) ↦ absurd (before (ap s.threads same ∙ e))
      | inr (ne, now) ↦ now ∙ e
    ]

acquiring :
    (s : Spinlock) (i : ℕ)
    → s.locked ≡ false
    → Held s
    → Held (record { locked = true; threads = update_at s.threads i Thread.holding })
acquiring s i free h = record {
  alone = λ j k a b. sym (only j a) ∙ only k b;
  taken = λ j a. refl;
  holder = λ l. (
    i,
    elim (update_at-cases s.threads i Thread.holding i) [
      | inl (_, now) ↦ now
      | inr (ne, _) ↦ absurd (ne refl)
    ],
  );
}
  where
    only : (j : ℕ) → update_at s.threads i Thread.holding j ≡ Thread.holding → i ≡ j
    only j e = elim (update_at-cases s.threads i Thread.holding j) [
      | inl (same, _) ↦ same
      | inr (ne, now) ↦ absurd (cc (free, h.taken j (sym now ∙ e)))
    ]

releasing : (s : Spinlock) (i : ℕ) → s.threads i ≡ Thread.holding → Held s → Held (unlock i s)
releasing s i mine h = record {
  alone = λ j k a b. absurd (nobody j a);
  taken = λ j a. absurd (nobody j a);
  holder = λ l. absurd (cc l);
}
  where
    nobody : (j : ℕ) → update_at s.threads i Thread.outside j ≢ Thread.holding
    nobody j e = elim (update_at-cases s.threads i Thread.outside j) [
      | inl (_, now) ↦ cc (now, e)
      | inr (ne, now) ↦ ne (h.alone i j mine (sym now ∙ e))
    ]

exchange-Held :
    (s : Spinlock) (i : ℕ) (otherwise : Thread)
    → s.threads i ≢ Thread.holding
    → otherwise ≢ Thread.holding
    → Held s
    → Held (exchange i otherwise s)
exchange-Held s i otherwise before after h = elim (Bool-cases s.locked) [
  | inl e ↦ rw e (
      subst (λ b. Held (record { locked = b; threads = update_at s.threads i otherwise })) e
        (passing s i otherwise before after h))
  | inr e ↦ rw e (acquiring s i e h)
]

neither :
    (b : Bool) {t u : Thread}
    → t ≢ Thread.holding
    → u ≢ Thread.holding
    → (if b then t else u) ≢ Thread.holding
neither true a b = a
neither false a b = b

Step-Held : {s t : Spinlock} → Held s → Step s t → Held t
Step-Held {s} h (Step.locks i e) = passing s i Thread.exchanging (λ g. cc (e, g)) (λ g. cc g) h
Step-Held {s} h (Step.exchanges i e) =
    exchange-Held s i Thread.spinning (λ g. cc (e, g)) (λ g. cc g) h
Step-Held {s} h (Step.spins i e) =
    passing s i (if s.locked then Thread.spinning else Thread.exchanging) (λ g. cc (e, g))
      (neither s.locked (λ g. cc g) (λ g. cc g)) h
Step-Held {s} h (Step.tries i e) =
    passing s i (if s.locked then Thread.outside else Thread.trying) (λ g. cc (e, g))
      (neither s.locked (λ g. cc g) (λ g. cc g)) h
Step-Held {s} h (Step.tries_exchange i e) =
    exchange-Held s i Thread.outside (λ g. cc (e, g)) (λ g. cc g) h
Step-Held {s} h (Step.unlocks i e) = releasing s i e h

Reach-Held : {s : Spinlock} → Reach s → Held s
Reach-Held Reach.here = record {
  alone = λ i j a b. absurd (cc a);
  taken = λ i a. absurd (cc a);
  holder = λ l. absurd (cc l);
}
Reach-Held (Reach.next r step) = Step-Held (Reach-Held r) step

-- However the threads' steps are interleaved, no two threads are behind the lock at once, and `lock_` is true
-- exactly while a thread is.
pub Reach-exclusive :
    {s : Spinlock}
    → Reach s
    → ((i j : ℕ) → s.threads i ≡ Thread.holding → s.threads j ≡ Thread.holding → i ≡ j)
      × ((s.locked ≡ true) ↔ ((i : ℕ) × (s.threads i ≡ Thread.holding)))
Reach-exclusive r = let h = Reach-Held r in (h.alone, (h.holder, λ (i, e). h.taken i e))
