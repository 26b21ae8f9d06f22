-- ===== src/Concurrency/Spsc/Tests.antt =====
-- The queue's theorems at concrete rings.
use postboy.Prelude.{
  ℕ, ◌+◌, ◌%◌, ◌^◌, ◌≤◌, ◌<◌, ◌≡◌, refl, none, some, List, [], ◌∷◌, ◌++◌, map, length, true, false,
  arith,
}
use postboy.Concurrency.Spsc.{
  SpscQueue, empty_queue, refresh_producer, create, publish, refresh_consumer, front_slot,
}
use postboy.Concurrency.Spsc.Invariant.{empty-Inv}
use postboy.Concurrency.Spsc.Sequential.{Fifo, Represents}
use postboy.Concurrency.Spsc.Runs.{RingCall, perform_all, expected_all, perform_all_refines_fifo}
use postboy.Concurrency.Spsc.Threads.{
  Threads, Producer, Consumer, ProducerStep, ConsumerStep, Step, Reach,
}
use postboy.Concurrency.Spsc.Safety.{Reach-fifo, Reach-slots}

-- A producer pushes 7 while a consumer is called, and 8 is about to be written.
abbrev ring_of_7 : SpscQueue ℕ
ring_of_7 = publish (create 2 7 (refresh_producer 2 empty_queue))

abbrev two_threads : Threads ℕ
two_threads = record {
  queue = refresh_consumer (refresh_producer 2 ring_of_7);
  producer = Producer.ready 8;
  consumer = Consumer.ready;
  sent = 7 ∷ [];
  received = [];
}

run_of_two : Reach 2 true two_threads
unfolding empty_queue
run_of_two =
    Reach.next
      (Reach.next
        (Reach.next
          (Reach.next
            (Reach.next
              (Reach.next
                (Reach.next
                  (Reach.next
                    (Reach.next
                      (Reach.next (Reach.next Reach.here (Step.produce (ProducerStep.call false 7)))
                        (Step.produce (ProducerStep.refresh false 7)))
                      (Step.produce (ProducerStep.pass_try 7 refl)))
                    (Step.produce (ProducerStep.write 7 (omega arith))))
                  (Step.produce ProducerStep.announce))
                (Step.produce (ProducerStep.call false 8)))
              (Step.produce (ProducerStep.refresh false 8)))
            (Step.produce (ProducerStep.pass_try 8 refl)))
          (Step.consume (ConsumerStep.call true)))
        (Step.consume (ConsumerStep.refresh true)))
      (Step.consume (ConsumerStep.pass true refl))

Reach-fifo_example :
    (xs : List ℕ) × (two_threads.received ++ map some xs ≡ map some two_threads.sent)
    × (length xs ≤ 2)
Reach-fifo_example =
    Reach-fifo {c = 2} {closeable = true} {t = two_threads} (omega arith) run_of_two

Reach-slots_example :
    ((v : ℕ)
      → two_threads.producer ≡ Producer.ready v
      → two_threads.queue.buffer (two_threads.queue.producer_end % 2) ≡ none)
    × (two_threads.consumer ≡ Consumer.ready → (x : ℕ) × (front_slot 2 two_threads.queue ≡ some x))
Reach-slots_example =
    Reach-slots {c = 2} {closeable = true} {t = two_threads} (omega arith) run_of_two

-- The same ring, used by one thread.
abbrev nothing_yet : Fifo ℕ
nothing_yet = record { items = []; closed = false }

empty_ring : Represents 2 true empty_queue nothing_yet
unfolding empty_queue
empty_ring = record { inv = empty-Inv 2 (omega arith); flag = refl }

-- A full ring refuses a third value, and a closed one a fourth; the last pop finds nothing.
abbrev calls : List (RingCall ℕ)
calls =
    RingCall.pushes 7
    ∷ RingCall.pushes 8
    ∷ RingCall.pushes 9
    ∷ RingCall.pops
    ∷ RingCall.closes
    ∷ RingCall.pushes 9
    ∷ RingCall.pops
    ∷ RingCall.pops
    ∷ []

few_calls : (empty_queue {A = ℕ}).producer_end + length calls < 2 ^ 64
unfolding empty_queue
few_calls = omega arith

perform_all_refines_fifo_example :
    ((perform_all 2 true calls empty_queue).0 ≡ (expected_all 2 true calls nothing_yet).0)
    × Represents 2 true
        (perform_all 2 true calls empty_queue).1
        (expected_all 2 true calls nothing_yet).1
perform_all_refines_fifo_example =
    perform_all_refines_fifo 2 true calls empty_queue nothing_yet empty_ring few_calls
