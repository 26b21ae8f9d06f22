-- ===== src/Graph/Processor.antt =====
-- src/postboy/base/processor.cpp, putable_processor.hpp and takeable_processor.hpp: a processor's
-- ports.
use postboy.Prelude.{
  ℕ, zero, suc, Option, none, some, List, [], ◌∷◌, map, if◌then◌else◌, Bool, true, false, not, ◌&&◌,
  ◌||◌,
}
use postboy.Graph.Queues.{
  Failure, ensure_failed, runtime_error, Queues, Port, Changed, valid, clear_producer,
  set_impl_producer, clear_consumer, set_impl_consumer,
}

-- A processor that takes has input ports, one that puts has output ports.
pub record Processor : Type 0 where
  pub inputs : Option (List Port)
  pub outputs : Option (List Port)

abbrev pub PortsChanged : Type 0
PortsChanged = List Port × Queues × Option Failure

abbrev pub keep : Port → PortsChanged → PortsChanged
keep p (ps, qs, failure) = (p ∷ ps, qs, failure)

abbrev pub replaced : List Port → Changed → PortsChanged
replaced ps (p, qs, failure) = (p ∷ ps, qs, failure)

-- `ForIndex` with the body of `LinkInputQueue` or `LinkOutputQueue`; no port has an index out of
-- range.
unfoldable pub link_port :
    (Port → Queues → Option ℕ → Changed) → List Port → ℕ → Queues → Option ℕ → PortsChanged
unfolding valid
link_port set_impl [] index qs queue = ([], qs, none)
link_port set_impl (p ∷ ps) zero qs queue =
    if valid p then (p ∷ ps, qs, some ensure_failed) else replaced ps (set_impl p qs queue)
link_port set_impl (p ∷ ps) (suc index) qs queue = keep p (link_port set_impl ps index qs queue)

abbrev pub ProcessorChanged : Type 0
ProcessorChanged = Processor × Queues × Option Failure

abbrev pub with_outputs : Processor → PortsChanged → ProcessorChanged
with_outputs x (ps, qs, failure) = (record { inputs = x.inputs; outputs = some ps }, qs, failure)

abbrev pub with_inputs : Processor → PortsChanged → ProcessorChanged
with_inputs x (ps, qs, failure) = (record { inputs = some ps; outputs = x.outputs }, qs, failure)

-- A processor that does not put has the base class's method, which throws.
unfoldable pub link_output_queue : Processor → ℕ → Queues → Option ℕ → ProcessorChanged
unfolding link_port set_impl_producer
link_output_queue x index qs queue = elim x.outputs [
  | none ↦ (x, qs, some runtime_error)
  | some ps ↦ with_outputs x (link_port set_impl_producer ps index qs queue)
]

unfoldable pub link_input_queue : Processor → ℕ → Queues → Option ℕ → ProcessorChanged
unfolding link_port set_impl_consumer
link_input_queue x index qs queue = elim x.inputs [
  | none ↦ (x, qs, some runtime_error)
  | some ps ↦ with_inputs x (link_port set_impl_consumer ps index qs queue)
]

unfoldable pub all_valid : List Port → Bool
unfolding valid
all_valid [] = true
all_valid (p ∷ ps) = valid p && all_valid ps

abbrev pub is_valid_ports : Option (List Port) → Bool
is_valid_ports none = false
is_valid_ports (some ps) = all_valid ps

abbrev pub has_ports : Option (List Port) → Bool
has_ports none = false
has_ports (some ps) = true

unfoldable pub is_valid : Processor → Bool
is_valid x =
    (not (has_ports x.inputs) || is_valid_ports x.inputs)
    && (not (has_ports x.outputs) || is_valid_ports x.outputs)

-- `UnlinkOutputQueues`: a failed `Clear` leaves the ports behind it as they are.
abbrev pub unlink_behind : (Queues → PortsChanged) → List Port → Changed → PortsChanged
unlink_behind rest ps (p, qs, none) = keep p (rest qs)
unlink_behind rest ps (p, qs, some failure) = (p ∷ ps, qs, some failure)

unfoldable pub unlink_output_queues : List Port → Queues → PortsChanged
unfolding clear_producer
unlink_output_queues [] qs = ([], qs, none)
unlink_output_queues (p ∷ ps) qs = unlink_behind (unlink_output_queues ps) ps (clear_producer p qs)

abbrev pub unlink_input_queues : Option (List Port) → Option (List Port)
unfolding clear_consumer
unlink_input_queues none = none
unlink_input_queues (some ps) = some (map clear_consumer ps)

-- The outputs are unlinked when all of them are valid, not whenever the processor puts.
unfoldable pub unlink_queues : Processor → Queues → ProcessorChanged
unfolding unlink_output_queues
unlink_queues x qs = elim x.outputs [
  | none ↦ (record { inputs = unlink_input_queues x.inputs; outputs = none }, qs, none)
  | some ps ↦
      if all_valid ps
      then with_outputs (record { inputs = unlink_input_queues x.inputs; outputs = none })
          (unlink_output_queues ps qs)
      else (record { inputs = unlink_input_queues x.inputs; outputs = some ps }, qs, none)
]
