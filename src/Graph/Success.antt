-- ===== src/Graph/Success.antt =====
-- When linking and unlinking succeed.
use postboy.Prelude.{
  ℕ, zero, suc, ◌+◌, ◌-◌, ◌%◌, ◌^◌, ◌≡◌, refl, ap, sym, subst, ◌∙◌, inl, inr, Option, none, some,
  List, [], ◌∷◌, arith, get_elem?, set, get_elem?-set_ne, ◌==◌, ==_iff, Bool, true, false, not,
  ◌&&◌, ◌||◌, ℕ_discrete, Bool-cases, Option-cases,
}
use postboy.Graph.Queues.{
  is_spsc, Queue, Queues, Port, valid, with_impl, with_active, clear_producer, set_impl_producer,
  increase_active_producers, decrease_active_producers,
}
use postboy.Graph.Processor.{
  unlink_behind, keep, Processor, link_port, link_output_queue, unlink_output_queues, unlink_queues,
  all_valid,
}
use postboy.Graph.Producers.{output_ports}

-- An SPSC queue takes one producer.
abbrev pub accepts_producer : Queue → Bool
accepts_producer q = not (is_spsc q.kind) || q.active_producers == 0

abbrev pub one_more_producer : Queue → Queue
one_more_producer q = with_active q ((q.active_producers + 1) % 2 ^ 64)

set_impl_producer-success :
    (p : Port) (qs : Queues) (address : ℕ) (q : Queue)
    → p.impl ≡ none
    → get_elem? qs address ≡ some q
    → q.element ≡ p.element
    → accepts_producer q ≡ true
    → set_impl_producer p qs (some address)
      ≡ (with_impl p (some address), set qs address (one_more_producer q), none)
unfolding set_impl_producer clear_producer increase_active_producers
set_impl_producer-success p qs address q free found type accepts =
    let alike = (==_iff q.element p.element).1 type in
    let fine : (is_spsc q.kind && not (q.active_producers == 0)) ≡ false = ground arith in
    rw (free, found, alike, fine) refl

link_port-success :
    (ps : List Port) (index : ℕ) (qs : Queues) (address : ℕ) (p : Port) (q : Queue)
    → get_elem? ps index ≡ some p
    → p.impl ≡ none
    → get_elem? qs address ≡ some q
    → q.element ≡ p.element
    → accepts_producer q ≡ true
    → link_port set_impl_producer ps index qs (some address)
      ≡ (set ps index (with_impl p (some address)), set qs address (one_more_producer q), none)
unfolding link_port valid
link_port-success [] index qs address p q at free found type accepts = cc at
link_port-success (r ∷ ps) zero qs address p q at free found type accepts =
    let same : r ≡ p = cc at in
    let linked = set_impl_producer-success p qs address q free found type accepts in
    let vacant : valid p ≡ false = rw free refl in rw (same, vacant, linked) refl
link_port-success (r ∷ ps) (suc index) qs address p q at free found type accepts =
    ap (keep r) (link_port-success ps index qs address p q at free found type accepts)

-- Linking a free output port of the queue's type to a queue that accepts a producer succeeds: the
-- port holds the queue, the queue counts one producer more, nothing else changes.
pub link_output_queue_success :
    (inputs : Option (List Port)) (ps : List Port) (index : ℕ) (qs : Queues) (address : ℕ)
    (p : Port) (q : Queue)
    → get_elem? ps index ≡ some p
    → p.impl ≡ none
    → get_elem? qs address ≡ some q
    → q.element ≡ p.element
    → accepts_producer q ≡ true
    → link_output_queue (record { inputs = inputs; outputs = some ps }) index qs (some address) ≡ (
      record { inputs = inputs; outputs = some (set ps index (with_impl p (some address))) },
      set qs address (one_more_producer q),
      none,
    )
unfolding link_output_queue
link_output_queue_success inputs ps index qs address p q at free found type accepts =
    rw (link_port-success ps index qs address p q at free found type accepts) refl

-- Every port holds a queue that is there and is not SPSC.
abbrev pub HoldsMpmc : Queues → Option ℕ → Type 0
HoldsMpmc qs none = Unit {0}
HoldsMpmc qs (some address) =
    (q : Queue) × (get_elem? qs address ≡ some q) × (is_spsc q.kind ≡ false)

abbrev pub AllMpmc : Queues → List Port → Type 0
AllMpmc qs [] = Unit {0}
AllMpmc qs (p ∷ ps) = HoldsMpmc qs p.impl × AllMpmc qs ps

get_elem?-set_found :
    (qs : Queues) (i : ℕ) {q r : Queue}
    → get_elem? qs i ≡ some q
    → get_elem? (set qs i r) i ≡ some r
get_elem?-set_found [] i h = cc h
get_elem?-set_found (x ∷ qs) zero h = refl
get_elem?-set_found (x ∷ qs) (suc i) h = get_elem?-set_found qs i h

HoldsMpmc-set :
    (qs : Queues) (i n : ℕ) (q : Queue) (impl : Option ℕ)
    → get_elem? qs i ≡ some q
    → HoldsMpmc qs impl
    → HoldsMpmc (set qs i (with_active q n)) impl
HoldsMpmc-set qs i n q none found h = tt
HoldsMpmc-set qs i n q (some j) found (r, there, kind) = elim (ℕ_discrete i j) [
  | no ne ↦ (r, get_elem?-set_ne qs (with_active q n) ne ∙ there, kind)
  | yes e ↦
      let found' = subst (λ k. get_elem? qs k ≡ some q) e found in
      let same : q ≡ r = cc (found', there) in
      (
        with_active q n,
        subst (λ k. get_elem? (set qs k (with_active q n)) j ≡ some (with_active q n)) (sym e)
            (get_elem?-set_found qs j there),
        rw same kind,
      )
]

AllMpmc-set :
    (qs : Queues) (i n : ℕ) (q : Queue) (ps : List Port)
    → get_elem? qs i ≡ some q
    → AllMpmc qs ps
    → AllMpmc (set qs i (with_active q n)) ps
AllMpmc-set qs i n q [] found all = tt
AllMpmc-set qs i n q (p ∷ ps) found all =
    (HoldsMpmc-set qs i n q p.impl found all.0, AllMpmc-set qs i n q ps found all.1)

abbrev one_producer_less : Queue → Queue
one_producer_less q = with_active q ((q.active_producers + (2 ^ 64 - 1)) % 2 ^ 64)

clear_producer-free :
    (p : Port) (qs : Queues) → p.impl ≡ none → clear_producer p qs ≡ (with_impl p none, qs, none)
unfolding clear_producer
clear_producer-free p qs e = rw e refl

clear_producer-mpmc :
    (p : Port) (qs : Queues) (address : ℕ) (q : Queue)
    → p.impl ≡ some address
    → get_elem? qs address ≡ some q
    → is_spsc q.kind ≡ false
    → clear_producer p qs ≡ (with_impl p none, set qs address (one_producer_less q), none)
unfolding clear_producer decrease_active_producers
clear_producer-mpmc p qs address q e found kind = rw (e, found, kind) refl

unlink_output_queues-success :
    (ps : List Port) (qs : Queues) → AllMpmc qs ps → (unlink_output_queues ps qs).2 ≡ none
unfolding unlink_output_queues
unlink_output_queues-success [] qs all = refl
unlink_output_queues-success (p ∷ ps) qs all = elim (Option-cases p.impl) [
  | inl e ↦
      subst (λ c. (unlink_behind (unlink_output_queues ps) ps c).2 ≡ none)
        (sym (clear_producer-free p qs e)) (unlink_output_queues-success ps qs all.1)
  | inr (address, e) ↦
      let (q, found, kind) = subst (HoldsMpmc qs) e all.0 in
      subst (λ c. (unlink_behind (unlink_output_queues ps) ps c).2 ≡ none)
        (sym (clear_producer-mpmc p qs address q e found kind))
        (unlink_output_queues-success ps _ (AllMpmc-set qs address _ q ps found all.1))
]

-- Unlinking a processor whose outputs hold queues that are not SPSC never fails.
pub unlink_queues-success :
    (x : Processor) (qs : Queues) → AllMpmc qs (output_ports x) → (unlink_queues x qs).2 ≡ none
unfolding unlink_queues
unlink_queues-success x qs all = elim (Option-cases x.outputs) [
  | inl e ↦ rw e refl
  | inr (ps, e) ↦
      let all' = rw e at all in
      elim (Bool-cases (all_valid ps)) [
        | inl v ↦ rw (e, v) (unlink_output_queues-success ps qs all')
        | inr v ↦ rw (e, v) refl
      ]
]
