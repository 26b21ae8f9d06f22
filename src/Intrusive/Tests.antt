-- ===== src/Intrusive/Tests.antt =====
-- The two lists' theorems on small lists.
use postboy.Prelude.{refl, List, [], ◌∷◌, arith, ◌==◌, if◌then◌else◌}
use postboy.Intrusive.Chain.{Store}
use postboy.Intrusive.ForwardList.{ForwardList, forward_list}
use postboy.Intrusive.List.{Links, init_empty}
use postboy.Intrusive.List.{append}
use postboy.Intrusive.List.Segments.{Segment}
use postboy.Intrusive.List.Append.{Rings, append-Segment}
use postboy.Intrusive.List.Order as Deque
use postboy.Intrusive.ForwardListOrder.{IsList}
use postboy.Intrusive.ForwardListRuns.{Operation}

-- Node 2 before node 7.
abbrev links : Store
links a = if a == 2 then 7 else 0

abbrev two_seven : ForwardList
two_seven = forward_list 2 7 2

two_seven_is : IsList (links, two_seven) (2 ∷ 7 ∷ [])
two_seven_is = (refl, refl, refl, (refl, tt), (ground arith, refl, (ground arith, refl, tt)))

-- Node 3 goes to the back, node 2 is popped and pushed again, and all is popped, and once more.
abbrev operations : List Operation
operations =
    Operation.push_last 3
    ∷ Operation.pop_first
    ∷ Operation.push_first 2
    ∷ Operation.pop_first
    ∷ Operation.pop_first
    ∷ Operation.pop_first
    ∷ Operation.pop_first
    ∷ []

-- A new list with its sentinel at 1.
abbrev no_links : Links
no_links = record { prev = λ _. 0; next = λ _. 0 }

abbrev new_list : Links
new_list = init_empty 1 no_links

new_list_is : Deque.IsList 1 new_list []
new_list_is = record {
  distinct = (ground arith, refl, tt);
  ring = (refl, refl);
  others = λ c k. ground (arith, k);
}

abbrev deque_operations : List Deque.ListOperation
deque_operations =
    Deque.push_last 5
    ∷ Deque.push_first 7
    ∷ Deque.push_last 9
    ∷ Deque.pop_last
    ∷ Deque.pop_first
    ∷ Deque.push_last 7
    ∷ Deque.pop_last
    ∷ Deque.pop_last
    ∷ Deque.pop_last
    ∷ []

perform-deque_example :
    (m : Links) × Deque.Performed 1 deque_operations new_list
      (0 ∷ 0 ∷ 0 ∷ 9 ∷ 7 ∷ 0 ∷ 7 ∷ 5 ∷ 0 ∷ [])
      m
    × Deque.IsList 1 m []
perform-deque_example =
    Deque.perform-deque 1 deque_operations new_list [] new_list_is (ground arith)

-- The lists 1, 5 and 2, 6, 7, where the sentinels are 1 and 2.
abbrev two_rings : Links
two_rings = record {
  prev = λ a.
      if a == 1 then 5 else if a == 5 then 1 else if a == 2 then 7 else if a == 6 then 2 else 6;
  next = λ a.
      if a == 1 then 5 else if a == 5 then 1 else if a == 2 then 6 else if a == 6 then 7 else 2;
}

two_rings_are : Rings 1 2 two_rings (5 ∷ []) (6 ∷ 7 ∷ [])
two_rings_are = record {
  first = (refl, refl, (refl, refl));
  second = (refl, refl, (refl, refl, (refl, refl)));
  first_distinct = ground arith;
  second_distinct = ground arith;
  apart = λ c k. ground (arith, k);
}

append-Segment_example :
    Segment (append 1 2 two_rings) 1 (5 ∷ 6 ∷ 7 ∷ []) 1 × Segment (append 1 2 two_rings) 2 [] 2
append-Segment_example = append-Segment 1 2 two_rings (5 ∷ []) (6 ∷ 7 ∷ []) two_rings_are
