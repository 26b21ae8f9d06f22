-- ===== src/Concurrency/ByteQueue/Tests.antt =====
-- A ring of two cells of two bytes.
use postboy.Prelude.{◌≡◌, refl, List, [], ◌∷◌, arith}
use postboy.Concurrency.ByteQueue.{SpscByteQueue, byte_queue}
use postboy.Concurrency.ByteQueue.Order.{
  Holds, Operation, perform_all, expected_all, perform_all_refines_queue,
}

abbrev new_ring : SpscByteQueue
new_ring = byte_queue 4 2

new_ring-Holds : Holds 2 2 new_ring []
new_ring-Holds = record {
  first = 0;
  first_bound = omega arith;
  some_bytes = omega arith;
  few_slots = omega arith;
  slot_count = refl;
  sized = refl;
  head_at = refl;
  tail_at = refl;
  counted = refl;
  fits = omega arith;
  contents = tt;
}

-- The third store finds the ring full; the last one goes around.
abbrev operations : List Operation
operations =
    Operation.store (1 ∷ 2 ∷ [])
    ∷ Operation.store (3 ∷ 4 ∷ [])
    ∷ Operation.store (5 ∷ 6 ∷ [])
    ∷ Operation.load
    ∷ Operation.store (7 ∷ 8 ∷ [])
    ∷ Operation.load
    ∷ Operation.load
    ∷ Operation.load
    ∷ []

perform_all_refines_queue_example :
    ((perform_all 2 operations new_ring).0 ≡ (expected_all 2 operations []).0)
    × Holds 2 2 (perform_all 2 operations new_ring).1 []
perform_all_refines_queue_example =
    perform_all_refines_queue 2 2 operations new_ring [] (refl, (refl, (refl, (refl, tt))))
      new_ring-Holds
