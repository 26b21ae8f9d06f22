-- ===== src/Concurrency/Mpsc/Order.antt =====
-- The queue hands out what was pushed, in the order of the successful exchanges.
use postboy.Prelude.{ℕ, ◌≡◌, refl, sym, subst, ◌∙◌, List, [], ◌∷◌, ◌++◌, arith, true}
use postboy.Intrusive.ForwardList.{ForwardList, is_empty}
use postboy.Intrusive.ForwardListOrder.{IsList, rest}
use postboy.Concurrency.Mpsc.{Taker, MpscQueue, start, Move, Run}
use postboy.Concurrency.Mpsc.Nodes.{Linked}
use postboy.Concurrency.Mpsc.Hands.{Lists, pending, Batch}
use postboy.Concurrency.Mpsc.Invariant.{
  Inv, load_head-Inv, link_node-Inv, exchanged-Inv, not_exchanged-Inv,
}
use postboy.Concurrency.Mpsc.Consumer.{
  lists, pop_all-Inv, reverse_one-Inv, pop_acq-Inv, take_batch-Inv,
}

-- Outside `TryTake` nothing is turned over, and in it nothing is ready.
idle :
    {q : MpscQueue} {s : Lists}
    → q.taker ≡ Taker.outside
    → Inv q s
    → Inv q (lists s.ready [] [] s.stacked)
idle {q} {s} at v =
    let b : Batch q.next Taker.outside s = subst (λ t. Batch q.next t s) at v.taker in
    subst (λ t. Inv q (lists s.ready t [] s.stacked)) b.0
      (subst (λ t. Inv q (lists s.ready s.turned t s.stacked)) b.1 v)

busy :
    {q : MpscQueue} {s : Lists} {head : ℕ} {result : ForwardList}
    → q.taker ≡ Taker.reversing head result
    → Inv q s
    → Inv q (lists [] s.turned s.batch s.stacked)
      × Batch q.next (Taker.reversing head result) (lists [] s.turned s.batch s.stacked)
busy {q} {s} {head} {result} at v =
    let b : Batch q.next (Taker.reversing head result) s =
      subst (λ t. Batch q.next t s) at v.taker in
    (subst (λ t. Inv q (lists t s.turned s.batch s.stacked)) b.2 v, (b.0, b.1, refl))

none_ready : {q : MpscQueue} (s : Lists) → is_empty q.acq ≡ true → Inv q s → s.ready ≡ []
none_ready {q} s empty v = ready s.ready v.acquired
  where
    ready : (xs : List ℕ) → IsList (q.next, q.acq) xs → xs ≡ []
    ready [] is = refl
    ready (x ∷ xs) is =
        let (head, _, _, _, distinct) = is in absurd (distinct.0 (sym head ∙ ground (arith, empty)))

Move-Inv : {q r : MpscQueue} (s : Lists) → Inv q s → Move q r → (t : Lists) × Inv r t
Move-Inv s v (Move.loads i node at ne free) = (s, load_head-Inv v i node at ne free)
Move-Inv s v (Move.links i node head at) = (s, link_node-Inv v i node head at)
Move-Inv s v (Move.exchanges i node at) =
    (record s { stacked = node ∷ s.stacked }, exchanged-Inv v i node at)
Move-Inv s v (Move.retries i node head at) = (s, not_exchanged-Inv v i node head at)
Move-Inv {q} s v (Move.pops_all at empty) =
    let v' = subst (λ t. Inv q (lists t [] [] s.stacked)) (none_ready s empty v) (idle at v) in
    (lists [] [] s.stacked [], pop_all-Inv q s.stacked v')
Move-Inv {q} s v (Move.reverses head result at ne) =
    let (v', b) = busy at v in reverse_one-Inv q head result s.turned s.batch s.stacked ne b v'
Move-Inv {q} s v (Move.finishes result at) =
    let (v', b) = busy at v in take_batch-Inv q result s.turned s.batch s.stacked b v'
Move-Inv {q} s v (Move.pops at full) =
    (lists (rest s.ready) [] [] s.stacked, pop_acq-Inv q s.ready s.stacked (idle at v))

start-Inv : Inv start (lists [] [] [] [])
start-Inv = record {
  stack = refl;
  acquired = (refl, refl);
  taker = (refl, refl);
  once = λ a. omega arith;
  inside = λ a m. ground (arith, m);
  hands = record {
    held = λ i n h. absurd (cc h);
    alone = λ i j n h k. absurd (cc h);
    links = λ i n h e. absurd (cc e);
  };
  history = refl;
}

Run-Inv : {q : MpscQueue} → Run q → (s : Lists) × Inv q s
Run-Inv Run.begins = (lists [] [] [] [], start-Inv)
Run-Inv (Run.moves run move) = let (s, v) = Run-Inv run in Move-Inv s v move

-- In every run of producers and the one consumer, where one access to shared memory is one step and a node
-- is pushed only while it is not null and neither with a producer nor in the queue, the nodes taken are the
-- first of the nodes pushed, in the order of the successful exchanges, and the nodes not taken yet are the
-- ones on the stack, in the batch and in the list of the consumer: no node is lost, taken twice or out of
-- turn.
pub Run-fifo :
    {q : MpscQueue}
    → Run q
    → (s : Lists) × Linked q.next q.head s.stacked
      × IsList (q.next, q.acq) s.ready
      × Batch q.next q.taker s
      × (q.pushed ≡ q.taken ++ pending s)
Run-fifo run = let (s, v) = Run-Inv run in (s, v.stack, v.acquired, v.taker, v.history)
