-- ===== src/Processors/Tests.antt =====
-- A range, a copy of two lines with a list for the third-party queue, and a latency counter.
use postboy.Prelude.{
  ℕ, ◌-◌, ◌^◌, ◌≡◌, refl, ◌⊎◌, inl, inr, Option, none, some, List, [], ◌∷◌, ◌++◌, replicate, true,
  Bytes,
}
use postboy.Processors.{Range, range, range_process}
use postboy.Processors.Counting.{outputs}
use postboy.Graph.Traffic.{ReaderWriterQueue, dequeue_round, check_round}
use postboy.Processors.Copy.{Copy, start, read, try_put, unlink, write, Step, Reach}
use postboy.Processors.Copy.Lines.{unlines, ended}
use postboy.Processors.Copy.Order.{Reach-copied}

-- A start of 2^64 - 1, which the int64_t stores as -1, puts nothing.
nothing_put : outputs 2 (range (2 ^ 64 - 1) (some 6)) ≡ ([], true)
unfolding outputs range_process
nothing_put = refl

abbrev elements : List ℕ
elements = replicate 40000 5

abbrev from_list : List Bytes → Option Bytes × List Bytes
from_list [] = (none, [])
from_list (x ∷ xs) = (some x, xs)

from_list-law :
    (q : List Bytes)
    → (((from_list q).0 ≡ none) × (q ≡ []) × ((from_list q).1 ≡ []))
      ⊎ ((x : Bytes) × ((from_list q).0 ≡ some x) × (q ≡ x ∷ (from_list q).1))
from_list-law [] = inl (refl, refl, refl)
from_list-law (x ∷ xs) = inr (x, refl, refl)

abbrev a_list : ReaderWriterQueue Bytes
a_list = record {
  Inner = List Bytes;
  try_enqueue = λ x q. (true, q ++ (x ∷ []));
  try_dequeue = from_list;
  contents = λ q. q;
  enqueues = λ x q. refl;
  dequeues = from_list-law;
}

-- A file of two lines, the last one not ended.
abbrev a_file : Bytes
a_file = 65 ∷ 10 ∷ 66 ∷ []

abbrev first_written : Copy a_list
first_written =
    let put : Copy a_list = try_put a_list (65 ∷ []) (read a_list (start a_list a_file [])) in
    let taken : Copy a_list = record put { traffic = dequeue_round a_list put.traffic } in
    write a_list (some (65 ∷ [])) taken

-- The writer finds the queue empty; the second line is put, and the reader leaves before the writer looks.
abbrev lost : Copy a_list
lost =
    let found : Copy a_list = record first_written {
      traffic = dequeue_round a_list first_written.traffic;
    } in
    let left : Copy a_list =
      unlink a_list (read a_list (try_put a_list (66 ∷ []) (read a_list found))) in
    let checked : Copy a_list = record left { traffic = check_round a_list left.traffic } in
    write a_list none checked

lost_reached : Reach a_list a_file [] lost
unfolding postboy.Processors.file_reader_process
lost_reached =
    let r1 = Reach.next Reach.here (Step.reads refl) in
    let r2 = Reach.next r1 (Step.puts_line (65 ∷ []) refl) in
    let r3 = Reach.next r2 (Step.dequeues_one refl refl) in
    let r4 = Reach.next r3 (Step.writes (some (65 ∷ [])) refl refl) in
    let r5 = Reach.next r4 (Step.dequeues_one refl refl) in
    let r6 = Reach.next r5 (Step.reads refl) in
    let r7 = Reach.next r6 (Step.puts_line (66 ∷ []) refl) in
    let r8 = Reach.next r7 (Step.reads refl) in
    let r9 = Reach.next r8 (Step.unlinks refl) in
    let r10 = Reach.next r9 (Step.checks refl refl) in Reach.next r10 (Step.writes none refl refl)

-- The writer has finished, and the second line is in the queue.
last_line_lost :
    (lost.finished ≡ true) × (lost.out ≡ 65 ∷ 10 ∷ []) × (lost.traffic.inner ≡ (66 ∷ []) ∷ [])
unfolding postboy.Processors.file_reader_process
last_line_lost = (refl, refl, refl)

Reach-copied_example :
    ((rest : Bytes) × (lost.out ++ rest ≡ ended a_file))
    × (lost.finished ≡ true → lost.out ++ unlines lost.traffic.inner ≡ ended a_file)
Reach-copied_example = Reach-copied a_list refl lost_reached
