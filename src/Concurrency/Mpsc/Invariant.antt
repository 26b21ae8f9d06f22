-- ===== src/Concurrency/Mpsc/Invariant.antt =====
-- What every move of a producer keeps.
use postboy.Prelude.{
  ℕ, ◌≤◌, ◌<◌, ◌≡◌, ◌≢◌, refl, ap, sym, subst, ◌∙◌, some, List, [], ◌∷◌, ◌++◌, append_assoc, arith,
  true, false, ℕ_discrete,
}
use postboy.Intrusive.Chain.{Store, assign}
use postboy.Intrusive.ForwardListOrder.{IsList}
use postboy.Concurrency.Mpsc.{
  Pusher, Taker, MpscQueue, set_owned, load_head, link_node, exchanged, not_exchanged,
}
use postboy.Concurrency.Mpsc.Nodes.{Linked, Linked-same, IsList-same, over-append}
use postboy.Concurrency.Mpsc.Hands.{Lists, total, pending, in_hand, Batch, Hands, Hands-set}

pub record Inv (q : MpscQueue) (s : Lists) : Type 0 where
  pub stack : Linked q.next q.head s.stacked
  pub acquired : IsList (q.next, q.acq) s.ready
  pub taker : Batch q.next q.taker s
  pub once : (a : ℕ) → total a s ≤ 1
  pub inside : (a : ℕ) → 0 < total a s → (a ≢ 0) × (q.owned a ≡ true)
  pub hands : Hands q.next q.owned q.pushers s
  pub history : q.pushed ≡ q.taken ++ pending s

-- The stack is no part of the batch, and what is pushed comes last.
Batch-stacked :
    (next : Store) (t : Taker) (s : Lists) (st : List ℕ)
    → Batch next t s
    → Batch next t (record s { stacked = st })
Batch-stacked next Taker.outside s st b = b
Batch-stacked next (Taker.reversing head result) s st b = b

pending-stacked :
    (taken : List ℕ) (s : Lists) (node : ℕ)
    → (taken ++ pending s) ++ (node ∷ [])
      ≡ taken ++ pending (record s { stacked = node ∷ s.stacked })
pending-stacked taken s node =
    let last = over-append s.stacked [] (node ∷ []) in simp (last, append_assoc)

module _ {q : MpscQueue} {s : Lists} (v : Inv q s) where
  -- A node outside the lists can be relinked.
  outside-stack : (node to : ℕ) → total node s ≡ 0 → Linked (assign q.next node to) q.head s.stacked
  outside-stack node to out =
      Linked-same q.next (assign q.next node to) q.head s.stacked (λ b m. ground (arith, out, m))
        v.stack

  outside-acquired :
      (node to : ℕ) → total node s ≡ 0 → IsList (assign q.next node to, q.acq) s.ready
  outside-acquired node to out =
      IsList-same q.next (assign q.next node to) q.acq s.ready (λ b m. ground (arith, out, m))
        v.acquired

  outside-taker :
      (node to : ℕ) (t : Taker)
      → total node s ≡ 0
      → Batch q.next t s
      → Batch (assign q.next node to) t s
  outside-taker node to Taker.outside out b = b
  outside-taker node to (Taker.reversing head result) out b =
      let next' = assign q.next node to in
      (
        Linked-same q.next next' head s.batch (λ b m. ground (arith, out, m)) b.0,
        IsList-same q.next next' result s.turned (λ b m. ground (arith, out, m)) b.1,
        b.2,
      )

  -- The node in a producer's hand is in no other's.
  others :
      (i node : ℕ)
      → in_hand (q.pushers i) ≡ some node
      → (j : ℕ) → i ≢ j
      → in_hand (q.pushers j) ≢ some node
  others i node at j ne h = ne (v.hands.alone i j node at h)

  fresh : (node : ℕ) → q.owned node ≡ false → total node s ≡ 0
  fresh node free = elim (ℕ_discrete (total node s) 0) [
    | yes e ↦ e
    | no ne ↦ let (_, own) = v.inside node (omega (arith, ne)) in absurd (cc (own, free))
  ]

  pub load_head-Inv :
      (i node : ℕ)
      → q.pushers i ≡ Pusher.outside
      → node ≢ 0
      → q.owned node ≡ false
      → Inv (load_head i node q) s
  load_head-Inv i node at ne free = record {
    stack = v.stack;
    acquired = v.acquired;
    taker = v.taker;
    once = v.once;
    history = v.history;
    inside = λ a m. let (x, y) = v.inside a m in (x, ground arith);
    hands =
        Hands-set v.hands i (Pusher.loaded node q.head)
          (λ n e.
            subst
              (λ n.
                (n ≢ 0)
                × (set_owned q.owned node true n ≡ true)
                × (total n s ≡ 0)
                × ((j : ℕ) → i ≢ j → in_hand (q.pushers j) ≢ some n))
              (cc e)
              (
                ne,
                ground arith,
                fresh node free,
                λ j ne' h. absurd (cc (free, (v.hands.held j node h).1)),
              ))
          (λ n h e. absurd (cc e))
          (λ j n ne' h. let (_, own, out) = v.hands.held j n h in (ground (arith, own), out, refl));
  }

  pub link_node-Inv :
      (i node head : ℕ) → q.pushers i ≡ Pusher.loaded node head → Inv (link_node i node head q) s
  link_node-Inv i node head at =
      let (ne, own, out) = v.hands.held i node (ap in_hand at) in
      record {
        stack = outside-stack node head out;
        acquired = outside-acquired node head out;
        taker = outside-taker node head q.taker out v.taker;
        once = v.once;
        inside = v.inside;
        history = v.history;
        hands =
            Hands-set v.hands i (Pusher.linked node head)
              (λ n e.
                subst
                  (λ n.
                    (n ≢ 0)
                    × (q.owned n ≡ true)
                    × (total n s ≡ 0)
                    × ((j : ℕ) → i ≢ j → in_hand (q.pushers j) ≢ some n))
                  (cc e) (ne, own, out, others i node (ap in_hand at)))
              (λ n h e. ground (arith, e))
              (λ j n ne' h.
                let (_, own', out') = v.hands.held j n h in
                let apart : node ≢ n =
                  λ e. others i node (ap in_hand at) j ne' (h ∙ ap some (sym e)) in
                (own', out', ground (arith, apart)));
      }

  pub exchanged-Inv :
      (i node : ℕ)
      → q.pushers i ≡ Pusher.linked node q.head
      → Inv (exchanged i node q) (record s { stacked = node ∷ s.stacked })
  exchanged-Inv i node at =
      let (ne, own, out) = v.hands.held i node (ap in_hand at) in
      let linked = v.hands.links i node q.head at in
      record {
        stack = (refl, ne, subst (λ a. Linked q.next a s.stacked) (sym linked) v.stack);
        acquired = v.acquired;
        taker = Batch-stacked q.next q.taker s (node ∷ s.stacked) v.taker;
        once = (λ a. ground (arith, v.once a, out));
        inside = (λ a m. ground (arith, v.inside a, m, ne, own));
        history = ap (λ l. l ++ (node ∷ [])) v.history ∙ pending-stacked q.taken s node;
        hands =
            Hands-set v.hands i Pusher.outside (λ n e. absurd (cc e)) (λ n h e. absurd (cc e))
              (λ j n ne' h.
                let (_, own', out') = v.hands.held j n h in
                let apart : node ≢ n =
                  λ e. others i node (ap in_hand at) j ne' (h ∙ ap some (sym e)) in
                (own', ground (arith, apart, out'), refl));
      }

  pub not_exchanged-Inv :
      (i node head : ℕ) → q.pushers i ≡ Pusher.linked node head → Inv (not_exchanged i node q) s
  not_exchanged-Inv i node head at =
      let (ne, own, out) = v.hands.held i node (ap in_hand at) in
      record {
        stack = v.stack;
        acquired = v.acquired;
        taker = v.taker;
        once = v.once;
        inside = v.inside;
        history = v.history;
        hands =
            Hands-set v.hands i (Pusher.loaded node q.head)
              (λ n e.
                subst
                  (λ n.
                    (n ≢ 0)
                    × (q.owned n ≡ true)
                    × (total n s ≡ 0)
                    × ((j : ℕ) → i ≢ j → in_hand (q.pushers j) ≢ some n))
                  (cc e) (ne, own, out, others i node (ap in_hand at)))
              (λ n h e. absurd (cc e))
              (λ j n ne' h. let (_, own', out') = v.hands.held j n h in (own', out', refl));
      }
