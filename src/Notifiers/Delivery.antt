-- ===== src/Notifiers/Delivery.antt =====
-- Each notifier hands out its messages in order.
use postboy.Prelude.{
  ℕ, zero, suc, ◌+◌, ◌%◌, ◌≤◌, ◌<◌, min, ◌≡◌, refl, ap, ap₂, subst, ◌∙◌, some, List, [], ◌∷◌, ◌++◌,
  arith, length, length-append, ltb, ◌==◌, true, false, Bytes,
}
use postboy.Notifiers.{
  storage_slots, queue_size, result_size, MessageNotifier, stored, send_impl, drain, handle_from,
  handle,
}

-- The messages that were sent and not handled.
abbrev pub waiting : (ℕ → Bytes) → List ℕ → List Bytes
waiting storage [] = []
waiting storage (slot ∷ slots) = storage slot ∷ waiting storage slots

abbrev pub messages_of : MessageNotifier → List Bytes
messages_of n = waiting n.storage n.queue

-- The slots from one on, around the storage.
abbrev pub Slots : ℕ → List ℕ → Type 0
Slots start [] = Unit {0}
Slots start (slot ∷ slots) = (slot ≡ start) × Slots ((start + 1) % storage_slots) slots

-- The pointers in the ring lead to the slots just written.
pub record WellFormed (n : MessageNotifier) : Type 0 where
  pub start : ℕ
  pub start_bound : start < storage_slots
  pub places : Slots start n.queue
  pub next_place : n.storage_idx ≡ (start + length n.queue) % storage_slots
  pub fits : length n.queue ≤ queue_size

waiting-stored :
    (storage : ℕ → Bytes) (message : Bytes) (slot start : ℕ) (slots : List ℕ) (ahead : ℕ)
    → start < storage_slots
    → Slots start slots
    → slot ≡ (start + ahead) % storage_slots
    → length slots ≤ ahead
    → ahead < storage_slots
    → waiting (stored slot message storage) slots ≡ waiting storage slots
waiting-stored storage message slot start [] ahead bound places at le lt = refl
waiting-stored storage message slot start (s ∷ ss) zero bound places at le lt = absurd (omega arith)
waiting-stored storage message slot start (s ∷ ss) (suc ahead) bound places at le lt =
    let apart : (slot == s) ≡ false = ground (arith, places.0) in
    let later =
      waiting-stored storage message slot ((start + 1) % storage_slots) ss ahead (omega arith)
        places.1 (omega (arith, at)) (omega arith) (omega arith) in
    rw apart (ap (λ t. storage s ∷ t) later)

waiting-append :
    (storage : ℕ → Bytes) (slots : List ℕ) (slot : ℕ)
    → waiting storage (slots ++ (slot ∷ [])) ≡ waiting storage slots ++ (storage slot ∷ [])
waiting-append storage [] slot = refl
waiting-append storage (s ∷ ss) slot = ap (λ t. storage s ∷ t) (waiting-append storage ss slot)

Slots-append :
    (start : ℕ) (slots : List ℕ) (slot : ℕ)
    → start < storage_slots
    → Slots start slots
    → slot ≡ (start + length slots) % storage_slots
    → Slots start (slots ++ (slot ∷ []))
Slots-append start [] slot bound places at = (omega (arith, at), tt)
Slots-append start (s ∷ ss) slot bound places at = (
  places.0,
  Slots-append ((start + 1) % storage_slots) ss slot (omega arith) places.1 (omega (arith, at)),
)

-- While its ring has a place, a notifier that is well-formed takes a message behind the ones that wait, none
-- of which is overwritten, and stays well-formed.
send_impl-messages :
    (message : Bytes) (n : MessageNotifier)
    → WellFormed n
    → length n.queue < queue_size
    → (m : MessageNotifier) × (send_impl message n ≡ some m)
      × WellFormed m
      × (messages_of m ≡ messages_of n ++ (message ∷ []))
unfolding send_impl
send_impl-messages message n w room =
    let open_ring : ltb (length n.queue) queue_size ≡ true = ground (arith, room) in
    let slot = n.storage_idx in
    let kept =
      waiting-stored n.storage message slot w.start n.queue (length n.queue) w.start_bound w.places
        w.next_place (omega arith) (omega (arith, room)) in
    rw open_ring (
      _,
      refl,
      record {
        start = w.start;
        start_bound = w.start_bound;
        places = Slots-append w.start n.queue slot w.start_bound w.places w.next_place;
        next_place = omega (arith, w.next_place, length-append n.queue (slot ∷ []));
        fits = omega (arith, room, length-append n.queue (slot ∷ []));
      },
      waiting-append (stored slot message n.storage) n.queue slot
          ∙ ap₂ (λ l m. l ++ (m ∷ [])) kept (ground arith),
    )

-- One notifier's messages, as many as there is room for.
record Drained (start room : ℕ) (storage : ℕ → Bytes) (queue : List ℕ)
    (o : List Bytes × (List ℕ × ℕ)) : Type 0 where
  split : waiting storage queue ≡ o.0 ++ waiting storage o.1.0
  counted : length o.0 ≡ min room (length queue)
  room_left : o.1.1 + length o.0 ≡ room
  queue_left : length o.1.0 + length o.0 ≡ length queue
  places_left : Slots ((start + length o.0) % storage_slots) o.1.0

drain-Drained :
    (start room : ℕ) (storage : ℕ → Bytes) (queue : List ℕ)
    → start < storage_slots
    → Slots start queue
    → Drained start room storage queue (drain room storage queue)
drain-Drained start zero storage queue bound places = record {
  split = refl;
  counted = omega arith;
  room_left = refl;
  queue_left = omega arith;
  places_left = subst (λ t. Slots t queue) (omega arith) places;
}
drain-Drained start (suc room) storage [] bound places = record {
  split = refl;
  counted = omega arith;
  room_left = omega arith;
  queue_left = refl;
  places_left = tt;
}
drain-Drained start (suc room) storage (s ∷ ss) bound places =
    let d = drain-Drained ((start + 1) % storage_slots) room storage ss (omega arith) places.1 in
    let (messages, (left, room')) = drain room storage ss in
    record {
      split = ap (λ t. storage s ∷ t) d.split;
      counted = omega (arith, d.counted);
      room_left = omega (arith, d.room_left);
      queue_left = omega (arith, d.queue_left);
      places_left = subst (λ t. Slots t left) (omega arith) d.places_left;
    }

-- From each notifier in turn come its first waiting messages; the others wait on.
pub data Delivers : List MessageNotifier → List Bytes → List MessageNotifier → Type 0 where
  no_notifier : Delivers [] [] []
  notifier_first :
      (n m : MessageNotifier) (messages later : List Bytes) (ns ms : List MessageNotifier)
      → messages_of n ≡ messages ++ messages_of m
      → WellFormed m
      → Delivers ns later ms
      → Delivers (n ∷ ns) (messages ++ later) (m ∷ ms)

abbrev pub AllWellFormed : List MessageNotifier → Type 0
AllWellFormed [] = Unit {0}
AllWellFormed (n ∷ ns) = WellFormed n × AllWellFormed ns

abbrev pub all_waiting : List MessageNotifier → ℕ
all_waiting [] = 0
all_waiting (n ∷ ns) = length n.queue + all_waiting ns

handle_from-Delivers :
    (room : ℕ) (ns : List MessageNotifier)
    → AllWellFormed ns
    → Delivers ns (handle_from room ns).0 (handle_from room ns).1
      × (length (handle_from room ns).0 ≡ min room (all_waiting ns))
handle_from-Delivers room [] w = (no_notifier, omega arith)
handle_from-Delivers room (n ∷ ns) w =
    let f = w.0 in
    let d = drain-Drained f.start room n.storage n.queue f.start_bound f.places in
    let (messages, (queue, room')) = drain room n.storage n.queue in
    let (later, count) = handle_from-Delivers room' ns w.1 in
    let m = record n { queue = queue } in
    let well : WellFormed m = record {
      start = (f.start + length messages) % storage_slots;
      start_bound = omega arith;
      places = d.places_left;
      next_place = omega (arith, f.next_place, d.queue_left);
      fits = omega (arith, f.fits, d.queue_left);
    } in
    (
      notifier_first n m messages (handle_from room' ns).0 ns (handle_from room' ns).1 d.split well
          later,
      omega (arith, count, d.counted, d.room_left, length-append messages (handle_from room' ns).0),
    )

-- From well-formed notifiers Handle hands out, notifier by notifier, the first messages that wait there, in
-- order and as many as wait or fit into the buffer of 1024; the others wait on, and the notifiers stay
-- well-formed.
pub handle-Delivers :
    (ns : List MessageNotifier)
    → AllWellFormed ns
    → Delivers ns (handle ns).0 (handle ns).1
      × (length (handle ns).0 ≡ min result_size (all_waiting ns))
unfolding handle
handle-Delivers ns w = handle_from-Delivers result_size ns w
