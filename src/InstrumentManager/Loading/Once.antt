-- ===== src/InstrumentManager/Loading/Once.antt =====
-- The manager is made once.
use postboy.Prelude.{
  ℕ, ◌≤◌, ◌≡◌, ◌≢◌, refl, ap, sym, subst, ◌∙◌, inl, inr, some, arith, Bool, true, false, update_at,
  update_at-cases,
}
use postboy.InstrumentManager.Loading.{
  Status, init, running, finished, Loader, exchanging, making, storing, waiting, thrown, returned,
  Loading, go, found, make, store_finished, waited, Step, calls, exchanges, makes, throws, stores,
  waits, calls_again, Reach, here, next,
}

abbrev busy : Loader → Bool
busy making = true
busy storing = true
busy thrown = true
busy _ = false

record Once (s : Loading) : Type 0 where
  alone : (i j : ℕ) → busy (s.loaders i) ≡ true → busy (s.loaders j) ≡ true → i ≡ j
  inside : (i : ℕ) → busy (s.loaders i) ≡ true → s.status ≡ running
  untouched : s.status ≡ init → s.made ≡ 0
  unmade : (i : ℕ) → s.loaders i ≡ making → s.made ≡ 0
  there : (i : ℕ) → s.loaders i ≡ storing → (w : ℕ) × (s.manager ≡ some w)
  complete : s.status ≡ finished → (w : ℕ) × (s.manager ≡ some w)
  behind : (i : ℕ) → s.loaders i ≡ returned → s.status ≡ finished
  bound : s.made ≤ 1

-- A thread that is busy neither before nor after a step, or that leaves by an exception.
passing :
    (s : Loading) (i : ℕ) (l : Loader)
    → (busy l ≡ true → busy (s.loaders i) ≡ true)
    → l ≢ making
    → l ≢ storing
    → (l ≡ returned → s.status ≡ finished)
    → Once s
    → Once (go i l s)
passing s i l work no_make no_store back h = record {
  alone = λ j k a b. h.alone j k (was j a) (was k b);
  inside = λ j a. h.inside j (was j a);
  untouched = h.untouched;
  unmade = λ j e. elim (update_at-cases s.loaders i l j) [
    | inl (_, now) ↦ absurd (no_make (sym now ∙ e))
    | inr (_, now) ↦ h.unmade j (sym now ∙ e)
  ];
  there = λ j e. elim (update_at-cases s.loaders i l j) [
    | inl (_, now) ↦ absurd (no_store (sym now ∙ e))
    | inr (_, now) ↦ h.there j (sym now ∙ e)
  ];
  complete = h.complete;
  behind = λ j e. elim (update_at-cases s.loaders i l j) [
    | inl (_, now) ↦ back (sym now ∙ e)
    | inr (_, now) ↦ h.behind j (sym now ∙ e)
  ];
  bound = h.bound;
}
  where
    was : (j : ℕ) → busy (update_at s.loaders i l j) ≡ true → busy (s.loaders j) ≡ true
    was j e = elim (update_at-cases s.loaders i l j) [
      | inl (same, now) ↦ subst (λ k. busy (s.loaders k) ≡ true) same (work (ap busy (sym now) ∙ e))
      | inr (_, now) ↦ ap busy (sym now) ∙ e
    ]

exchange_status-Once :
    (s : Loading) (i : ℕ)
    → s.loaders i ≡ exchanging
    → Once s
    → (v : Status) → s.status ≡ v
    → Once (found v i s)
exchange_status-Once s i e h running at =
    passing s i waiting (λ w. absurd (cc w)) (λ w. cc w) (λ w. cc w) (λ w. absurd (cc w)) h
exchange_status-Once s i e h finished at =
    passing s i returned (λ w. absurd (cc w)) (λ w. cc w) (λ w. cc w) (λ _. at) h
exchange_status-Once s i e h init at = record {
  alone = λ j k a b. sym (only j a) ∙ only k b;
  inside = λ j a. refl;
  untouched = λ w. absurd (cc w);
  unmade = λ j w. h.untouched at;
  there = λ j w. elim (update_at-cases s.loaders i making j) [
    | inl (_, now) ↦ absurd (cc (now, w))
    | inr (_, now) ↦ h.there j (sym now ∙ w)
  ];
  complete = λ w. absurd (cc w);
  behind = λ j w. elim (update_at-cases s.loaders i making j) [
    | inl (_, now) ↦ absurd (cc (now, w))
    | inr (_, now) ↦ absurd (cc (at, h.behind j (sym now ∙ w)))
  ];
  bound = h.bound;
}
  where
    only : (j : ℕ) → busy (update_at s.loaders i making j) ≡ true → i ≡ j
    only j w = elim (update_at-cases s.loaders i making j) [
      | inl (same, _) ↦ same
      | inr (_, now) ↦ absurd (cc (at, h.inside j (ap busy (sym now) ∙ w)))
    ]

-- Of a thread in the constructor, or behind it, the other threads are not busy.
others :
    (s : Loading) (i : ℕ) (l : Loader) (j : ℕ)
    → busy (s.loaders i) ≡ true
    → Once s
    → busy (update_at s.loaders i l j) ≡ true
    → (i ≡ j) × (update_at s.loaders i l j ≡ l)
others s i l j mine h w = elim (update_at-cases s.loaders i l j) [
  | inl both ↦ both
  | inr (ne, now) ↦ absurd (ne (h.alone i j mine (ap busy (sym now) ∙ w)))
]

make-Once : (s : Loading) (i : ℕ) → s.loaders i ≡ making → Once s → Once (make i s)
make-Once s i e h =
    let mine : busy (s.loaders i) ≡ true = ap busy e in
    let one = λ (j : ℕ) (w : busy (update_at s.loaders i storing j) ≡ true).
      others s i storing j mine h w in
    record {
      alone = λ j k a b. sym (one j a).0 ∙ (one k b).0;
      inside = λ j a. h.inside i mine;
      untouched = λ w. absurd (cc (w, h.inside i mine));
      unmade = λ j w. absurd (cc ((one j (ap busy w)).1, w));
      there = λ j w. (i, refl);
      complete = λ w. (i, refl);
      behind = λ j w. elim (update_at-cases s.loaders i storing j) [
        | inl (_, now) ↦ absurd (cc (now, w))
        | inr (_, now) ↦ h.behind j (sym now ∙ w)
      ];
      bound = omega (arith, h.unmade i e);
    }

store_finished-Once :
    (s : Loading) (i : ℕ) → s.loaders i ≡ storing → Once s → Once (store_finished i s)
store_finished-Once s i e h =
    let mine : busy (s.loaders i) ≡ true = ap busy e in
    let no_one = λ (j : ℕ) (w : busy (update_at s.loaders i returned j) ≡ true).
      let back : busy returned ≡ true = ap busy (sym (others s i returned j mine h w).1) ∙ w in
      absurd {A = i ≢ i} (cc back) in
    record {
      alone = λ j k a b. absurd (no_one j a refl);
      inside = λ j a. absurd (no_one j a refl);
      untouched = λ w. absurd (cc w);
      unmade = λ j w. absurd (no_one j (ap busy w) refl);
      there = λ j w. absurd (no_one j (ap busy w) refl);
      complete = λ w. h.there i e;
      behind = λ j w. refl;
      bound = h.bound;
    }

wait-Once : (s : Loading) (i : ℕ) → Once s → (v : Status) → s.status ≡ v → Once (go i (waited v) s)
wait-Once s i h init at =
    passing s i waiting (λ w. absurd (cc w)) (λ w. cc w) (λ w. cc w) (λ w. absurd (cc w)) h
wait-Once s i h running at =
    passing s i waiting (λ w. absurd (cc w)) (λ w. cc w) (λ w. cc w) (λ w. absurd (cc w)) h
wait-Once s i h finished at =
    passing s i returned (λ w. absurd (cc w)) (λ w. cc w) (λ w. cc w) (λ _. at) h

Step-Once : {s t : Loading} → Once s → Step s t → Once t
Step-Once {s} h (calls i e) =
    passing s i exchanging (λ w. absurd (cc w)) (λ w. cc w) (λ w. cc w) (λ w. absurd (cc w)) h
Step-Once {s} h (exchanges i e) = exchange_status-Once s i e h s.status refl
Step-Once {s} h (makes i e) = make-Once s i e h
Step-Once {s} h (throws i e) =
    passing s i thrown (λ _. ap busy e) (λ w. cc w) (λ w. cc w) (λ w. absurd (cc w)) h
Step-Once {s} h (stores i e) = store_finished-Once s i e h
Step-Once {s} h (waits i e) = wait-Once s i h s.status refl
Step-Once {s} h (calls_again i e) =
    passing s i exchanging (λ w. absurd (cc w)) (λ w. cc w) (λ w. cc w) (λ w. absurd (cc w)) h

Reach-Once : {s : Loading} → Reach s → Once s
Reach-Once here = record {
  alone = λ i j a b. absurd (cc a);
  inside = λ i a. absurd (cc a);
  untouched = λ _. refl;
  unmade = λ i a. absurd (cc a);
  there = λ i a. absurd (cc a);
  complete = λ a. absurd (cc a);
  behind = λ i a. absurd (cc a);
  bound = omega arith;
}
Reach-Once (next r step) = Step-Once (Reach-Once r) step

-- However the threads that call Load are interleaved: the manager is made at most once, whoever has returned
-- finds it made, and when the constructor threw in one thread, no thread has returned.
pub Reach-once :
    {s : Loading}
    → Reach s
    → (s.made ≤ 1)
      × ((i : ℕ) → s.loaders i ≡ Loader.returned → (w : ℕ) × (s.manager ≡ some w))
      × ((i j : ℕ) → s.loaders i ≡ thrown → s.loaders j ≢ returned)
Reach-once r =
    let h = Reach-Once r in
    (
      h.bound,
      λ i e. h.complete (h.behind i e),
      λ i j e back. cc (h.inside i (ap busy e), h.behind j back),
    )
