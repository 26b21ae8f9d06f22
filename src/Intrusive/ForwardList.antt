-- ===== src/Intrusive/ForwardList.antt =====
-- src/common/intrusive/forward_list.hpp: a singly linked list with its length.
use postboy.Prelude.{
  ℕ, zero, suc, ◌+◌, ◌-◌, ◌%◌, ◌^◌, Option, none, some, List, [], ◌∷◌, ◌==◌, if◌then◌else◌, Bool,
}
use postboy.Intrusive.Chain.{Store, assign}

pub record ForwardList : Type 0 where
  pub head : ℕ
  pub tail : ℕ
  pub size : ℕ

abbrev pub State : Type 0
State = Store × ForwardList

abbrev pub forward_list : ℕ → ℕ → ℕ → ForwardList
forward_list head tail size = record { head = head; tail = tail; size = size }

-- `Reset`, and a list as constructed.
abbrev pub reset : ForwardList
reset = forward_list 0 0 0

-- The move constructor: the new list, and that one, left empty.
abbrev pub moved : ForwardList → ForwardList × ForwardList
moved that = (that, reset)

abbrev pub is_empty : ForwardList → Bool
is_empty l = l.head == 0

unfoldable pub push_back : ℕ → State → State
push_back node (next, l) =
    let cleared = assign next node 0 in
    if is_empty l
    then (cleared, forward_list node node ((l.size + 1) % 2 ^ 64))
    else (assign cleared l.tail node, forward_list l.head node ((l.size + 1) % 2 ^ 64))

-- Into an empty list the node comes with the link it has.
unfoldable pub push_front : ℕ → State → State
push_front node (next, l) =
    if is_empty l
    then (next, forward_list node node ((l.size + 1) % 2 ^ 64))
    else (assign next node l.head, forward_list node l.tail ((l.size + 1) % 2 ^ 64))

-- The popped node is 0 on an empty list.
unfoldable pub pop_front : State → ℕ × State
pop_front (next, l) = if is_empty l then (0, (next, l)) else (
  l.head,
  (
    assign next l.head 0,
    if l.head == l.tail
        then forward_list 0 0 ((l.size + (2 ^ 64 - 1)) % 2 ^ 64)
        else forward_list (next l.head) l.tail ((l.size + (2 ^ 64 - 1)) % 2 ^ 64),
  ),
)

-- This list, and that one, which is left empty.
unfoldable pub append : Store → ForwardList → ForwardList → Store × ForwardList × ForwardList
append next l that = if is_empty l then (next, that, reset) else (
  assign next l.tail that.head,
  forward_list l.head that.tail ((l.size + that.size) % 2 ^ 64),
  reset,
)

abbrev pub handed : ℕ → Option (List ℕ) → Option (List ℕ)
handed iter none = none
handed iter (some nodes) = some (iter ∷ nodes)

-- `ForEach`, with the nodes that the handler gets; `none` means that the fuel ran out.
unfoldable pub for_each : ℕ → Store → ℕ → Option (List ℕ)
for_each zero next iter = none
for_each (suc fuel) next iter =
    let later = for_each fuel next (next iter) in if iter == 0 then some [] else handed iter later
