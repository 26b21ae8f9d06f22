-- ===== src/Concurrency/Mpsc/Consumer.antt =====
-- What the consumer's moves keep.
use postboy.Prelude.{
  ℕ, ◌≡◌, ◌≢◌, refl, sym, subst, ◌∙◌, inl, inr, List, [], ◌∷◌, append-nil, append_assoc, arith,
  ◌==◌, true, false, Bool-cases,
}
use postboy.Intrusive.Chain.{Store}
use postboy.Intrusive.ForwardList.{
  ForwardList, State, reset, is_empty, push_front, pop_front, append,
}
use postboy.Intrusive.ForwardListOrder.{IsList, rest, push_front-IsList, pop_front-IsList}
use postboy.Concurrency.Mpsc.{Taker, MpscQueue, pop_all, reverse_one, give, pop_acq, take_batch}
use postboy.Concurrency.Mpsc.Nodes.{count, count-mem, Linked, Linked-same, over}
use postboy.Concurrency.Mpsc.Hands.{Lists, Batch, Hands-keep}
use postboy.Concurrency.Mpsc.Invariant.{Inv}

abbrev pub lists : (ready turned batch stacked : List ℕ) → Lists
lists ready turned batch stacked = record {
  ready = ready;
  turned = turned;
  batch = batch;
  stacked = stacked;
}

-- PushFront and PopFront change one node's link at most.
push_front-link : (node : ℕ) (s : State) (b : ℕ) → b ≢ node → (push_front node s).0 b ≡ s.0 b
unfolding push_front
push_front-link node (next, l) b ne = elim (Bool-cases (is_empty l)) [
  | inl e ↦ rw e refl
  | inr e ↦ let apart : (node == b) ≡ false = ground (arith, ne) in rw (e, apart) refl
]

pop_front-link : (s : State) (b : ℕ) → b ≢ s.1.head → (pop_front s).1.0 b ≡ s.0 b
unfolding pop_front
pop_front-link (next, l) b ne = elim (Bool-cases (is_empty l)) [
  | inl e ↦ rw e refl
  | inr e ↦ let apart : (l.head == b) ≡ false = ground (arith, ne) in rw (e, apart) refl
]

pop_front-none :
    (next : Store) (l : ForwardList) → l.head ≡ 0 → pop_front (next, l) ≡ (0, (next, l))
unfolding pop_front
pop_front-none next l e = let empty : is_empty l ≡ true = ground arith in rw empty refl

append-empty :
    (next : Store) (l that : ForwardList)
    → is_empty l ≡ true
    → append next l that ≡ (next, that, reset)
unfolding append
append-empty next l that e = rw e refl

pub pop_all-Inv :
    (q : MpscQueue) (st : List ℕ) → Inv q (lists [] [] [] st) → Inv (pop_all q) (lists [] [] st [])
pop_all-Inv q st v = record {
  stack = refl;
  acquired = v.acquired;
  taker = (v.stack, (refl, refl), refl);
  once = λ a. let h = v.once a in omega (arith, h);
  inside = λ a m. v.inside a (omega (arith, m));
  hands =
      Hands-keep v.hands
        (λ j n h. let (_, own, out) = v.hands.held j n h in (own, omega (arith, out), refl));
  history = rw (append-nil (over st [])) v.history;
}

module _ (q : MpscQueue) (x : ℕ) (result : ForwardList) (tn xs st : List ℕ)
    (v : Inv q (lists [] tn (x ∷ xs) st)) where
  reverse_first-Inv :
      x ≢ 0
      → Linked q.next (q.next x) xs
      → IsList (q.next, result) tn
      → Inv (reverse_one x result q) (lists [] (x ∷ tn) xs st)
  reverse_first-Inv ne link list =
      let once = v.once x in
      let unmet : count x tn ≡ 0 = ground (arith, once) in
      let next' = (push_front x (q.next, result)).0 in
      let same : (a : ℕ) → a ≢ x → next' a ≡ q.next a = push_front-link x (q.next, result) in
      record {
        stack =
            Linked-same q.next next' q.head st (λ a m. same a (λ e. ground (arith, m, once, e)))
              v.stack;
        acquired = v.acquired;
        taker = (
          Linked-same q.next next' (q.next x) xs (λ a m. same a (λ e. ground (arith, m, once, e)))
              link,
          push_front-IsList x (q.next, result) tn ne (count-mem x tn unmet) list,
          refl,
        );
        once = λ a. let h = v.once a in ground (arith, h);
        inside = λ a m. v.inside a (ground (arith, m));
        hands = Hands-keep v.hands (λ j n h.
            let (_, own, out) = v.hands.held j n h in
            (own, ground (arith, out), same n (λ e. ground (arith, out, e))));
        history = v.history;
      }

-- The batch is not at its end, so one node of it goes to the front of the result.
pub reverse_one-Inv :
    (q : MpscQueue) (head : ℕ) (result : ForwardList) (tn bt st : List ℕ)
    → head ≢ 0
    → Batch q.next (Taker.reversing head result) (lists [] tn bt st)
    → Inv q (lists [] tn bt st)
    → (s : Lists) × Inv (reverse_one head result q) s
reverse_one-Inv q head result tn [] st ne b v = absurd (ne b.0)
reverse_one-Inv q head result tn (x ∷ xs) st ne b v =
    let first = reverse_first-Inv q x result tn xs st v b.0.1 b.0.2 b.1 in
    (
      lists [] (x ∷ tn) xs st,
      subst (λ y. Inv (reverse_one y result q) (lists [] (x ∷ tn) xs st)) (sym b.0.0) first,
    )

module _ {q : MpscQueue} {x : ℕ} {xs st : List ℕ} (o : ℕ × (Store × ForwardList)) where
  give-Inv :
      o.0 ≡ x
      → ((a : ℕ) → a ≢ x → o.1.0 a ≡ q.next a)
      → IsList (o.1.0, o.1.1) xs
      → Inv q (lists (x ∷ xs) [] [] st)
      → Inv (give q o) (lists xs [] [] st)
  give-Inv out same is v =
      let once = v.once x in
      let (ne, _) = v.inside x (ground arith) in
      let full : (o.0 == 0) ≡ false = ground (arith, out, ne) in
      rw full record {
        stack =
            Linked-same q.next o.1.0 q.head st (λ a m. same a (λ e. ground (arith, m, once, e)))
              v.stack;
        acquired = is;
        taker = (refl, refl);
        once = λ a. let h = v.once a in ground (arith, h);
        inside = λ a m.
            let (z, own) = v.inside a (ground (arith, m)) in (z, ground (arith, own, once, m, out));
        hands = Hands-keep v.hands (λ j n h.
            let (_, own, free) = v.hands.held j n h in
            let apart : n ≢ x = λ e. ground (arith, free, e) in
            (ground (arith, own, apart, out), ground (arith, free), same n apart));
        history = v.history ∙ simp (out, append_assoc);
      }

-- PopFront gives nothing.
give_none-Inv :
    (q : MpscQueue) (st : List ℕ)
    → Inv q (lists [] [] [] st)
    → Inv (give q (0, (q.next, q.acq))) (lists [] [] [] st)
give_none-Inv q st v = record {
  stack = v.stack;
  acquired = v.acquired;
  taker = (refl, refl);
  once = v.once;
  inside = v.inside;
  hands = v.hands;
  history = v.history;
}

pub pop_acq-Inv :
    (q : MpscQueue) (rd st : List ℕ)
    → Inv q (lists rd [] [] st)
    → Inv (pop_acq q) (lists (rest rd) [] [] st)
pop_acq-Inv q [] st v =
    subst (λ o. Inv (give q o) (lists [] [] [] st)) (sym (pop_front-none q.next q.acq v.acquired.0))
      (give_none-Inv q st v)
pop_acq-Inv q (x ∷ xs) st v =
    let (out, is) = pop_front-IsList (q.next, q.acq) (x ∷ xs) v.acquired in
    give-Inv (pop_front (q.next, q.acq)) out
      (λ a ne. pop_front-link (q.next, q.acq) a (λ e. ne (e ∙ v.acquired.0))) is v

-- The end of the reversal: the result is the consumer's list.
pub take_batch-Inv :
    (q : MpscQueue) (result : ForwardList) (tn bt st : List ℕ)
    → Batch q.next (Taker.reversing 0 result) (lists [] tn bt st)
    → Inv q (lists [] tn bt st)
    → (s : Lists) × Inv (take_batch result q) s
take_batch-Inv q result tn (x ∷ xs) st b v = absurd (b.0.1 (sym b.0.0))
take_batch-Inv q result tn [] st b v =
    let empty : is_empty q.acq ≡ true = ground (arith, v.acquired.0) in
    let acquired : Inv (record q { acq = result; taker = Taker.outside }) (lists tn [] [] st) =
      record {
        stack = v.stack;
        acquired = b.1;
        taker = (refl, refl);
        once = λ a. let h = v.once a in omega (arith, h);
        inside = λ a m. v.inside a (omega (arith, m));
        hands =
            Hands-keep v.hands
              (λ j n h. let (_, own, out) = v.hands.held j n h in (own, omega (arith, out), refl));
        history = v.history;
      } in
    (
      lists (rest tn) [] [] st,
      subst (λ o. Inv (pop_acq (record q { next = o.0; acq = o.1 })) (lists (rest tn) [] [] st))
          (sym (append-empty q.next q.acq result empty))
          (pop_acq-Inv (record q { acq = result; taker = Taker.outside }) tn st acquired),
    )
