-- ===== src/Notifiers/Tests.antt =====
-- Messages of two threads.
use postboy.Prelude.{min, ◌≡◌, refl, List, [], ◌∷◌, arith, length, ◌==◌, if◌then◌else◌, codes}
use postboy.Notifiers.{MessageNotifier, notifier, result_size, handle}
use postboy.Notifiers.Delivery.{WellFormed, Delivers, all_waiting, handle-Delivers}

new_notifier : WellFormed notifier
new_notifier = record {
  start = 0;
  start_bound = omega arith;
  places = tt;
  next_place = refl;
  fits = omega arith;
}

-- Slot 4094 is the last of the storage, and slot 0 follows it.
abbrev around_end : MessageNotifier
around_end = record {
  storage = λ i. if i == 4094 then codes "first" else codes "second";
  storage_idx = 1;
  queue = 4094 ∷ 0 ∷ [];
}

around_end_well : WellFormed around_end
around_end_well = record {
  start = 4094;
  start_bound = omega arith;
  places = (refl, (refl, tt));
  next_place = refl;
  fits = omega arith;
}

abbrev notifiers : List MessageNotifier
notifiers = notifier ∷ around_end ∷ []

handle-Delivers_example :
    Delivers notifiers (handle notifiers).0 (handle notifiers).1
    × (length (handle notifiers).0 ≡ min result_size (all_waiting notifiers))
handle-Delivers_example = handle-Delivers notifiers (new_notifier, (around_end_well, tt))
