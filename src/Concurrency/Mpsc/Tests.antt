-- ===== src/Concurrency/Mpsc/Tests.antt =====
-- Two producers push, and the consumer takes the node that was pushed first.
use postboy.Prelude.{◌≡◌, refl, [], ◌∷◌, ◌++◌, arith}
use postboy.Intrusive.ForwardList.{ForwardList, reset, push_front, pop_front, append}
use postboy.Intrusive.ForwardListOrder.{IsList}
use postboy.Concurrency.Mpsc.{
  MpscQueue, start, Move, Run, load_head, link_node, exchanged, not_exchanged, pop_all, reverse_one,
  take_batch,
}
use postboy.Concurrency.Mpsc.Nodes.{Linked}
use postboy.Concurrency.Mpsc.Hands.{Lists, pending, Batch}
use postboy.Concurrency.Mpsc.Order.{Run-fifo}

-- The second producer's exchange finds the head that it read gone, and it tries again.
abbrev loaded : MpscQueue
loaded = load_head 1 9 (load_head 0 5 start)

abbrev linked : MpscQueue
linked = link_node 1 9 0 (link_node 0 5 0 loaded)

abbrev one_pushed : MpscQueue
one_pushed = exchanged 0 5 linked

abbrev tried : MpscQueue
tried = not_exchanged 1 9 one_pushed

abbrev two_pushed : MpscQueue
two_pushed = exchanged 1 9 (link_node 1 9 5 tried)

abbrev turned : MpscQueue
turned =
    reverse_one 5 (push_front 9 (two_pushed.next, reset)).1
      (reverse_one 9 reset (pop_all two_pushed))

abbrev result : ForwardList
result =
    (push_front 5
      ((push_front 9 (two_pushed.next, reset)).0, (push_front 9 (two_pushed.next, reset)).1)).1

loaded-Run : Run loaded
loaded-Run =
    Run.moves (Run.moves Run.begins (Move.loads 0 5 refl (ground arith) refl))
      (Move.loads 1 9 refl (ground arith) refl)

tried-Run : Run tried
tried-Run =
    Run.moves
      (Run.moves (Run.moves (Run.moves loaded-Run (Move.links 0 5 0 refl)) (Move.links 1 9 0 refl))
        (Move.exchanges 0 5 refl))
      (Move.retries 1 9 0 refl)

turned-Run : Run turned
unfolding push_front
turned-Run =
    Run.moves
      (Run.moves
        (Run.moves
          (Run.moves (Run.moves tried-Run (Move.links 1 9 5 refl)) (Move.exchanges 1 9 refl))
          (Move.pops_all refl refl))
        (Move.reverses 9 reset refl (ground arith)))
      (Move.reverses 5 (push_front 9 (two_pushed.next, reset)).1 refl (ground arith))

abbrev first_taken : MpscQueue
first_taken = take_batch result turned

first_taken-Run : Run first_taken
unfolding push_front
first_taken-Run = Run.moves turned-Run (Move.finishes result refl)

takes_first : first_taken.taken ≡ 5 ∷ []
unfolding push_front pop_front append
takes_first = refl

Run-fifo_example :
    (s : Lists) × Linked first_taken.next first_taken.head s.stacked
    × IsList (first_taken.next, first_taken.acq) s.ready
    × Batch first_taken.next first_taken.taker s
    × (first_taken.pushed ≡ first_taken.taken ++ pending s)
Run-fifo_example = Run-fifo first_taken-Run
