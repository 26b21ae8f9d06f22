-- ===== src/Intrusive/List.antt =====
-- src/common/intrusive/list.hpp: a circular doubly linked list. Null is 0; the sentinel is a node. The header's
-- macros WHEELS_VERIFY and WHEELS_ASSERT are read as VERIFY and ASSERT; none is a failed VERIFY.
pub mod Segments
pub mod Order
pub mod Append
use postboy.Prelude.{ℕ, zero, suc, true, false, Option, none, some, ◌==◌, if◌then◌else◌, Bool, not}
use postboy.Intrusive.Chain.{Store, assign}

pub record Links : Type 0 where
  pub prev : Store
  pub next : Store

abbrev pub is_linked : ℕ → Links → Bool
is_linked node l = not (l.next node == 0)

-- `LinkBefore`, past its VERIFY and with it.
unfoldable pub linked_before : ℕ → ℕ → Links → Links
linked_before node to l =
    let before = l.prev to in
    record {
      prev = assign (assign l.prev node before) to node;
      next = assign (assign l.next before node) node to;
    }

abbrev pub link_before : ℕ → ℕ → Links → Option Links
link_before node to l = if is_linked node l then none else some (linked_before node to l)

-- A write through a pointer that may be null.
abbrev pub assign_at : Store → ℕ → ℕ → Store
assign_at f a b = if a == 0 then f else assign f a b

unfoldable pub unlink : ℕ → Links → Links
unlink node l = record {
  prev = assign (assign_at l.prev (l.next node) (l.prev node)) node 0;
  next = assign (assign_at l.next (l.prev node) (l.next node)) node 0;
}

-- A new list's sentinel.
abbrev pub init_empty : ℕ → Links → Links
init_empty head l = record { prev = assign l.prev head head; next = assign l.next head head }

abbrev pub is_empty : ℕ → Links → Bool
is_empty head l = l.next head == head

unfoldable pub push_back : ℕ → ℕ → Links → Option Links
unfolding linked_before
push_back head node l = link_before node head l

unfoldable pub push_front : ℕ → ℕ → Links → Option Links
unfolding linked_before
push_front head node l = link_before node (l.next head) l

-- The popped node is 0 on an empty list.
unfoldable pub pop_front : ℕ → Links → ℕ × Links
unfolding unlink
pop_front head l = if is_empty head l then (0, l) else (l.next head, unlink (l.next head) l)

unfoldable pub pop_back : ℕ → Links → ℕ × Links
unfolding unlink
pop_back head l = if is_empty head l then (0, l) else (l.prev head, unlink (l.prev head) l)

-- `Append`, of the list with the sentinel `that` behind the one with `head`; each write in its turn.
unfoldable pub append : ℕ → ℕ → Links → Links
append head that l =
    let that_front = l.next that in
    let that_back = l.prev that in
    let front_moved = assign l.prev that_front (l.prev head) in
    let back = front_moved head in
    let joined : Links = record {
      prev = assign (assign front_moved head that_back) that that;
      next = assign (assign (assign l.next that_back head) back that_front) that that;
    } in
    if is_empty that l then l else joined

-- `UnlinkAll`'s loop, on fuel; none where it is out of fuel.
unfoldable pub unlink_from : ℕ → ℕ → ℕ → Links → Option Links
unlink_from zero head current l = none
unlink_from (suc n) head current l = elim (current == head) [
  | true ↦ some l
  | false ↦ unlink_from n head (l.next current) (unlink current l)
]
