-- ===== src/Concurrency/Mpsc.antt =====
-- src/common/concurrency/mpsc_unbounded_intrusive_lock_free_stack.hpp and _queue.hpp: any number of
-- producers push nodes, one consumer takes them. One access to shared memory is one step.
pub mod Nodes
pub mod Hands
pub mod Invariant
pub mod Consumer
pub mod Order
mod Tests
use postboy.Prelude.{
  update_at, ℕ, ◌+◌, ◌≡◌, ◌≢◌, List, [], ◌∷◌, ◌++◌, ◌==◌, if◌then◌else◌, Bool, true, false,
}
use postboy.Intrusive.Chain.{Store, assign}
use postboy.Intrusive.ForwardList.{ForwardList, reset, is_empty, push_front, pop_front, append}

-- Where a producer stands in `Push`: the expected head is read, then it is the node's link as well.
pub data Pusher : Type 0 where
  outside : Pusher
  loaded linked : (node head : ℕ) → Pusher

-- Where the consumer stands in `TryTake`: outside, or in the loop that reverses what it popped.
pub data Taker : Type 0 where
  outside : Taker
  reversing : ℕ → ForwardList → Taker

-- `owned` tells the nodes that are with a producer or in the queue; `pushed` and `taken` record the
-- nodes that were pushed and taken, oldest first.
pub record MpscQueue : Type 0 where
  pub next : Store
  pub head : ℕ
  pub acq : ForwardList
  pub pushers : ℕ → Pusher
  pub taker : Taker
  pub owned : ℕ → Bool
  pub pushed : List ℕ
  pub taken : List ℕ

abbrev pub set_owned : (ℕ → Bool) → ℕ → Bool → ℕ → Bool
set_owned f a b c = if a == c then b else f c

abbrev pub start : MpscQueue
start = record {
  next = λ _. 0;
  head = 0;
  acq = reset;
  pushers = λ _. Pusher.outside;
  taker = Taker.outside;
  owned = λ _. false;
  pushed = [];
  taken = [];
}

-- `head_.load`.
abbrev pub load_head : ℕ → ℕ → MpscQueue → MpscQueue
load_head i node q = record q {
  pushers = update_at q.pushers i (Pusher.loaded node q.head);
  owned = set_owned q.owned node true;
}

-- `node->next_ = head`.
abbrev pub link_node : ℕ → ℕ → ℕ → MpscQueue → MpscQueue
link_node i node head q = record q {
  next = assign q.next node head;
  pushers = update_at q.pushers i (Pusher.linked node head);
}

-- `compare_exchange_weak`, when it succeeds and when it does not.
abbrev pub exchanged : ℕ → ℕ → MpscQueue → MpscQueue
exchanged i node q = record q {
  head = node;
  pushers = update_at q.pushers i Pusher.outside;
  pushed = q.pushed ++ (node ∷ []);
}

abbrev pub not_exchanged : ℕ → ℕ → MpscQueue → MpscQueue
not_exchanged i node q = record q { pushers = update_at q.pushers i (Pusher.loaded node q.head) }

-- `TryPopAll`.
abbrev pub pop_all : MpscQueue → MpscQueue
pop_all q = record q { head = 0; taker = Taker.reversing q.head reset }

-- One round of the loop in `TryPopAllReversed`.
abbrev pub reverse_one : ℕ → ForwardList → MpscQueue → MpscQueue
reverse_one head result q =
    let (next, result') = push_front head (q.next, result) in
    record q { next = next; taker = Taker.reversing (q.next head) result' }

-- The end of `TryTake`: `PopFront`, which gives null for an empty list.
abbrev pub give : MpscQueue → ℕ × (Store × ForwardList) → MpscQueue
give q (out, (next, acq)) = record q {
  next = next;
  acq = acq;
  taker = Taker.outside;
  owned = if out == 0 then q.owned else set_owned q.owned out false;
  taken = if out == 0 then q.taken else q.taken ++ (out ∷ []);
}

abbrev pub pop_acq : MpscQueue → MpscQueue
pop_acq q = give q (pop_front (q.next, q.acq))

abbrev pub take_batch : ForwardList → MpscQueue → MpscQueue
take_batch result q =
    let (next, acq, empty) = append q.next q.acq result in
    pop_acq (record q { next = next; acq = acq })

-- A caller pushes a node that is neither null nor in use.
pub data Move (q : MpscQueue) : MpscQueue → Type 0 where
  loads :
      (i node : ℕ)
      → q.pushers i ≡ Pusher.outside
      → node ≢ 0
      → q.owned node ≡ false
      → Move q (load_head i node q)
  links :
      (i node head : ℕ) → q.pushers i ≡ Pusher.loaded node head → Move q (link_node i node head q)
  exchanges : (i node : ℕ) → q.pushers i ≡ Pusher.linked node q.head → Move q (exchanged i node q)
  retries :
      (i node head : ℕ) → q.pushers i ≡ Pusher.linked node head → Move q (not_exchanged i node q)
  pops_all : q.taker ≡ Taker.outside → is_empty q.acq ≡ true → Move q (pop_all q)
  reverses :
      (head : ℕ) (result : ForwardList)
      → q.taker ≡ Taker.reversing head result
      → head ≢ 0
      → Move q (reverse_one head result q)
  finishes :
      (result : ForwardList) → q.taker ≡ Taker.reversing 0 result → Move q (take_batch result q)
  pops : q.taker ≡ Taker.outside → is_empty q.acq ≡ false → Move q (pop_acq q)

pub data Run : MpscQueue → Type 0 where
  begins : Run start
  moves : {q r : MpscQueue} → Run q → Move q r → Run r
