-- ===== src/Notifiers.antt =====
-- src/postboy/notifiers/base_message_notifier/message_notifier.cpp: each thread's messages for one reader.
-- The ring of pointers to the messages is the sequence that its theorems say it stands for.
pub mod Delivery
mod Tests
use postboy.Prelude.{
  ℕ, zero, suc, ◌+◌, ◌%◌, Option, none, some, List, [], ◌∷◌, ◌++◌, length, ltb, ◌==◌, if◌then◌else◌,
  Bytes,
}

abbrev pub storage_slots : ℕ
storage_slots = 4095

abbrev pub queue_size : ℕ
queue_size = 1024

abbrev pub result_size : ℕ
result_size = 1024

-- `messageStorage_`, `messageStorageIdx_` and the slots that the ring points to, oldest first.
pub record MessageNotifier : Type 0 where
  pub storage : ℕ → Bytes
  pub storage_idx : ℕ
  pub queue : List ℕ

abbrev pub notifier : MessageNotifier
notifier = record { storage = λ _. []; storage_idx = 0; queue = [] }

abbrev pub stored : ℕ → Bytes → (ℕ → Bytes) → ℕ → Bytes
stored slot message storage i = if slot == i then message else storage i

-- `SendImpl`; none while `Push` waits for a place in the ring.
unfoldable pub send_impl : Bytes → MessageNotifier → Option MessageNotifier
send_impl message n =
    if ltb (length n.queue) queue_size
    then some (record {
      storage = stored n.storage_idx message n.storage;
      storage_idx = (n.storage_idx + 1) % storage_slots;
      queue = n.queue ++ (n.storage_idx ∷ []);
    })
    else none

-- `Handle`'s inner loop over one notifier's queue, with room for so many messages in the buffer: the
-- messages, the pointers that are left and the room that is left.
abbrev pub drain : ℕ → (ℕ → Bytes) → List ℕ → List Bytes × (List ℕ × ℕ)
drain zero storage queue = ([], (queue, zero))
drain (suc room) storage [] = ([], ([], suc room))
drain (suc room) storage (slot ∷ slots) =
    let (messages, left) = drain room storage slots in (storage slot ∷ messages, left)

-- The outer loop.
abbrev pub handle_from : ℕ → List MessageNotifier → List Bytes × List MessageNotifier
handle_from room [] = ([], [])
handle_from room (n ∷ ns) =
    let (messages, (queue, room')) = drain room n.storage n.queue in
    let (later, ns') = handle_from room' ns in (messages ++ later, record n { queue = queue } ∷ ns')

unfoldable pub handle : List MessageNotifier → List Bytes × List MessageNotifier
handle ns = handle_from result_size ns
