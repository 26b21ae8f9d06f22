-- ===== src/Graph/Traffic/Tests.antt =====
-- Whole calls of Put and Take, with a list of one place, or two, for the third-party queue.
use postboy.Prelude.{
  ℕ, ◌+◌, ◌≡◌, refl, ◌⊎◌, inl, inr, Option, none, some, List, [], ◌∷◌, ◌++◌, arith, Bool, true,
  false, if◌then◌else◌,
}
use postboy.Graph.SharedTraffic as Shared
use postboy.Graph.SharedTraffic.{given, tally, ConcurrentQueue}
use postboy.Graph.SharedTraffic.Puts as SharedPuts
use postboy.Graph.Traffic.{
  ReaderWriterQueue, Taker, Traffic, put_round, leave, dequeue_round, check_round, Step, Reach,
}
use postboy.Graph.Traffic.Puts as Puts
use postboy.Graph.Traffic.Puts.{held, in_hand}

abbrev from_list : List ℕ → Option ℕ × List ℕ
from_list [] = (none, [])
from_list (x ∷ xs) = (some x, xs)

from_list-law :
    (q : List ℕ)
    → (((from_list q).0 ≡ none) × (q ≡ []) × ((from_list q).1 ≡ []))
      ⊎ ((x : ℕ) × ((from_list q).0 ≡ some x) × (q ≡ x ∷ (from_list q).1))
from_list-law [] = inl (refl, refl, refl)
from_list-law (x ∷ xs) = inr (x, refl, refl)

-- There is one place.
abbrev into_list : ℕ → List ℕ → Bool × List ℕ
into_list x [] = (true, x ∷ [])
into_list x (y ∷ ys) = (false, y ∷ ys)

into_list-law :
    (x : ℕ) (q : List ℕ) → (into_list x q).1 ≡ (if (into_list x q).0 then q ++ (x ∷ []) else q)
into_list-law x [] = refl
into_list-law x (y ∷ ys) = refl

abbrev a_list : ReaderWriterQueue ℕ
a_list = record {
  Inner = List ℕ;
  try_enqueue = into_list;
  try_dequeue = from_list;
  contents = λ q. q;
  enqueues = into_list-law;
  dequeues = from_list-law;
}

abbrev begun : Traffic a_list
begun = record { inner = []; active_producers = 1; taker = Taker.dequeuing; put = []; taken = [] }

-- The consumer finds the queue empty; then an element comes and the producer leaves, before the check.
abbrev left_behind : Traffic a_list
left_behind = check_round a_list (leave a_list (put_round a_list 5 (dequeue_round a_list begun))).0

left_behind_reached : Reach a_list [] 1 left_behind
left_behind_reached =
    Reach.next
      (Reach.next
        (Reach.next (Reach.next Reach.here (Step.dequeues_one refl)) (Step.puts 5 (omega arith)))
        (Step.leaves (omega arith)))
      (Step.checks refl)

-- `Take` returns nothing though an element is there.
returns_nothing : (left_behind.taker ≡ Taker.returned none) × (left_behind.inner ≡ 5 ∷ [])
returns_nothing = (refl, refl)

-- The second element is refused until the first was taken; the third is still refused.
abbrev called : Puts.Session a_list
called = record { traffic = begun; putting = none; asked = []; received = [] }

abbrev refused : Puts.Session a_list
refused =
    Puts.put_again a_list 6
      (Puts.begin_put a_list 6 (Puts.put_again a_list 5 (Puts.begin_put a_list 5 called)))

abbrev first_taken : Puts.Session a_list
first_taken =
    Puts.end_take a_list (some 5)
      (record refused { traffic = dequeue_round a_list refused.traffic })

abbrev third_refused : Puts.Session a_list
third_refused =
    Puts.put_again a_list 7 (Puts.begin_put a_list 7 (Puts.put_again a_list 6 first_taken))

third_refused_reached : Puts.Reach a_list [] 1 third_refused
third_refused_reached =
    let r1 = Puts.Reach.next Puts.Reach.here (Puts.Step.calls_put 5 refl (omega arith)) in
    let r2 = Puts.Reach.next r1 (Puts.Step.puts 5 refl) in
    let r3 = Puts.Reach.next r2 (Puts.Step.calls_put 6 refl (omega arith)) in
    let r4 = Puts.Reach.next r3 (Puts.Step.puts 6 refl) in
    let r5 = Puts.Reach.next r4 (Puts.Step.dequeues_one refl) in
    let r6 = Puts.Reach.next r5 (Puts.Step.takes (some 5) refl) in
    let r7 = Puts.Reach.next r6 (Puts.Step.puts 6 refl) in
    let r8 = Puts.Reach.next r7 (Puts.Step.calls_put 7 refl (omega arith)) in
    Puts.Reach.next r8 (Puts.Step.puts 7 refl)

Reach-delivered_example :
    (third_refused.asked
      ≡ third_refused.received
        ++ (in_hand third_refused.traffic.taker
            ++ (third_refused.traffic.inner ++ held third_refused.putting)))
    × (third_refused.traffic.taker ≡ Taker.returned none
        → third_refused.traffic.active_producers ≡ 0)
Reach-delivered_example = Puts.Reach-delivered a_list refl third_refused_reached

-- Two producers and two consumers of one queue.
bag_dequeue-law :
    (y : ℕ) (q : List ℕ) → tally y q ≡ tally y (from_list q).1 + given y (from_list q).0
bag_dequeue-law y [] = omega arith
bag_dequeue-law y (x ∷ xs) = omega arith

bag_enqueue-law :
    (x y : ℕ) (q : List ℕ)
    → tally y (into_list x q).1 ≡ tally y q + (if (into_list x q).0 then given y (some x) else 0)
bag_enqueue-law x y [] = omega arith
bag_enqueue-law x y (z ∷ zs) = omega arith

abbrev a_bag : ConcurrentQueue
a_bag = record {
  Inner = List ℕ;
  try_enqueue = into_list;
  try_dequeue = from_list;
  count = tally;
  enqueues = bag_enqueue-law;
  dequeues = bag_dequeue-law;
}

abbrev shared_called : SharedPuts.Session a_bag
shared_called = record {
  traffic = record {
    inner = [];
    active_producers = 2;
    takers = λ _. Taker.dequeuing;
    put = [];
    taken = [];
  };
  putting = λ _. none;
  asked = [];
  received = [];
}

-- Producer 1 is refused, as producer 0's element has the place; consumer 1 has taken that one.
abbrev one_refused : SharedPuts.Session a_bag
one_refused = SharedPuts.put_again a_bag 1 6 (
    SharedPuts.put_again a_bag 0 5
      (SharedPuts.begin_put a_bag 1 6 (SharedPuts.begin_put a_bag 0 5 shared_called)))

abbrev shared : SharedPuts.Session a_bag
shared = record one_refused { traffic = Shared.dequeue_round a_bag 1 one_refused.traffic }

shared_reached : SharedPuts.Reach a_bag 2 2 [] shared
shared_reached =
    let r1 =
      SharedPuts.Reach.next SharedPuts.Reach.here
        (SharedPuts.Step.calls_put 0 5 (omega arith) refl) in
    let r2 = SharedPuts.Reach.next r1 (SharedPuts.Step.calls_put 1 6 (omega arith) refl) in
    let r3 = SharedPuts.Reach.next r2 (SharedPuts.Step.puts 0 5 (omega arith) refl) in
    let r4 = SharedPuts.Reach.next r3 (SharedPuts.Step.puts 1 6 (omega arith) refl) in
    SharedPuts.Reach.next r4 (SharedPuts.Step.dequeues_one 1 (omega arith) refl)

Reach-delivered_each_example :
    ((y : ℕ)
      → tally y shared.asked
        ≡ ((tally y shared.received
              + SharedPuts.total (SharedPuts.in_hand y) shared.traffic.takers 2)
            + tally y shared.traffic.inner)
          + SharedPuts.total (given y) shared.putting 2)
    × ((i : ℕ)
        → shared.traffic.takers i ≡ Taker.returned none
        → shared.traffic.active_producers ≡ 0)
Reach-delivered_each_example = SharedPuts.Reach-delivered_each a_bag (λ y. refl) shared_reached
