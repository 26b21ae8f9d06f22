-- ===== src/Graph/Binding.antt =====
-- src/postboy/base/binding.cpp, typed_binding.hpp and CreateOutputBinding: joining ports by a queue.
use postboy.Prelude.{
  ℕ, ◌⊎◌, inl, inr, Option, none, some, List, [], ◌∷◌, ◌++◌, length, get_elem?, if◌then◌else◌, Bool,
  true, false, Bytes, bytes_eq,
}
use postboy.Graph.Queues.{
  Failure, ensure_failed, out_of_range, runtime_error, panicked, null_dereference, QueueKind, Queue,
  Queues, Port,
}
use postboy.Graph.Processor.{Processor, ProcessorChanged, link_output_queue, link_input_queue}

-- The configuration's enum; `unknown` is a number that it does not name.
pub data BindingType : Type 0 where
  spsc spmc mpsc mpmc unknown : BindingType

pub record Socket : Type 0 where
  pub postboy_name : Bytes
  pub index : Option ℕ

pub record BindingConfig : Type 0 where
  pub name : Bytes
  pub type : BindingType
  pub producer : List Socket
  pub consumer : List Socket

-- A postboy of the map, by its name.
pub record Member : Type 0 where
  pub name : Bytes
  pub processor : Processor

pub record Graph : Type 0 where
  pub postboys : List Member
  pub queues : Queues

-- `queue_` is a member that nothing but the constructor sets.
pub record TypedBinding : Type 0 where
  pub config : BindingConfig
  pub element : ℕ
  pub queue : Option ℕ
  pub producers : List (Bytes × ℕ)
  pub consumers : List (Bytes × ℕ)

pub data Outcome : Type 0 where
  made : TypedBinding → Outcome
  failed : Failure → Outcome

unfoldable pub find_postboy : Bytes → List Member → Option Processor
find_postboy name [] = none
find_postboy name (m ∷ ms) =
    let later = find_postboy name ms in if bytes_eq m.name name then some m.processor else later

abbrev pub replace_postboy : Bytes → Processor → List Member → List Member
replace_postboy name x [] = []
replace_postboy name x (m ∷ ms) =
    let later = replace_postboy name x ms in
    if bytes_eq m.name name then record { name = m.name; processor = x } ∷ ms else m ∷ later

abbrev socket_index : Option ℕ → ℕ
socket_index none = 0
socket_index (some index) = index

-- The loops of `Setup` over the sockets: each must name a postboy.
abbrev pub resolve : List Member → List Socket → Option (List (Bytes × ℕ))
unfolding find_postboy
resolve ms [] = some []
resolve ms (s ∷ ss) = elim (find_postboy s.postboy_name ms) [
  | none ↦ none
  | some x ↦ elim (resolve ms ss) [
    | none ↦ none
    | some rest ↦ some ((s.postboy_name, socket_index s.index) ∷ rest)
  ]
]

abbrev pub relinked : Graph → Bytes → ProcessorChanged → Graph × Option Failure
relinked g name (x, qs, failure) =
    (record { postboys = replace_postboy name x g.postboys; queues = qs }, failure)

-- `postboy->Processor().LinkOutputQueue(index, queue)` and its like; a postboy that is gone is null.
abbrev pub link_found_output :
    Graph → Bytes → ℕ → Option ℕ → Option Processor → Graph × Option Failure
unfolding link_output_queue
link_found_output g name index queue none = (g, some null_dereference)
link_found_output g name index queue (some x) =
    relinked g name (link_output_queue x index g.queues queue)

abbrev pub link_found_input :
    Graph → Bytes → ℕ → Option ℕ → Option Processor → Graph × Option Failure
unfolding link_input_queue
link_found_input g name index queue none = (g, some null_dereference)
link_found_input g name index queue (some x) =
    relinked g name (link_input_queue x index g.queues queue)

unfoldable pub link_output : Graph → Bytes × ℕ → Option ℕ → Graph × Option Failure
unfolding find_postboy
link_output g (name, index) queue =
    link_found_output g name index queue (find_postboy name g.postboys)

unfoldable pub link_input : Graph → Bytes × ℕ → Option ℕ → Graph × Option Failure
unfolding find_postboy
link_input g (name, index) queue =
    link_found_input g name index queue (find_postboy name g.postboys)

-- What follows a link, unless it threw.
abbrev pub and_then :
    Graph × Option Failure → (Graph → Graph × Option Failure) → Graph × Option Failure
and_then (g, none) next = next g
and_then (g, some failure) next = (g, some failure)

abbrev pub link_all :
    (Graph → Bytes × ℕ → Option ℕ → Graph × Option Failure)
    → Option ℕ
    → List (Bytes × ℕ)
    → Graph
    → Graph × Option Failure
link_all link queue [] g = (g, none)
link_all link queue (s ∷ ss) g = and_then (link g s queue) (link_all link queue ss)

-- `front()` of nothing is undefined.
abbrev link_front :
    (Graph → Bytes × ℕ → Option ℕ → Graph × Option Failure)
    → Option ℕ
    → List (Bytes × ℕ)
    → Graph
    → Graph × Option Failure
link_front link queue [] g = (g, some null_dereference)
link_front link queue (s ∷ ss) g = link g s queue

abbrev pub with_queue : Graph → Queue → Graph
with_queue g q = record { postboys = g.postboys; queues = g.queues ++ (q ∷ []) }

-- `SetupSPSC`: a new queue, between the first producer and the first consumer.
unfoldable pub setup_spsc : ℕ → List (Bytes × ℕ) → List (Bytes × ℕ) → Graph → Graph × Option Failure
unfolding link_output link_input
setup_spsc element producers consumers g =
    let queue = some (length g.queues) in
    let g' =
      with_queue g (record { kind = QueueKind.spsc; element = element; active_producers = 0 }) in
    and_then (link_front link_output queue producers g') (link_front link_input queue consumers)

-- `SetupMPMC`: a new queue, between all producers and all consumers.
unfoldable pub setup_mpmc : ℕ → List (Bytes × ℕ) → List (Bytes × ℕ) → Graph → Graph × Option Failure
unfolding link_output link_input
setup_mpmc element producers consumers g =
    let queue = some (length g.queues) in
    let g' =
      with_queue g (record { kind = QueueKind.mpmc; element = element; active_producers = 0 }) in
    and_then (link_all link_output queue producers g') (link_all link_input queue consumers)

abbrev pub setup_by_type :
    BindingType → ℕ → List (Bytes × ℕ) → List (Bytes × ℕ) → Graph → Graph × Option Failure
setup_by_type BindingType.spsc = setup_spsc
setup_by_type BindingType.spmc = setup_mpmc
setup_by_type BindingType.mpsc = setup_mpmc
setup_by_type BindingType.mpmc = setup_mpmc
setup_by_type BindingType.unknown = λ element producers consumers g. (g, some panicked)

abbrev pub outcome : TypedBinding → Graph × Option Failure → Graph × Outcome
outcome b (g, none) = (g, made b)
outcome b (g, some failure) = (g, failed failure)

-- `TypedBinding::Setup` of a binding of this type.
abbrev pub setup_resolved :
    BindingConfig
    → ℕ
    → Graph
    → Option (List (Bytes × ℕ))
    → Option (List (Bytes × ℕ))
    → Graph × Outcome
setup_resolved config element g (some producers) (some consumers) =
    outcome
      (record {
        config = config;
        element = element;
        queue = none;
        producers = producers;
        consumers = consumers;
      })
      (setup_by_type config.type element producers consumers g)
setup_resolved config element g _ _ = (g, failed ensure_failed)

unfoldable pub setup : BindingConfig → ℕ → Graph → Graph × Outcome
unfolding setup_spsc setup_mpmc
setup config element g =
    setup_resolved config element g (resolve g.postboys config.producer)
      (resolve g.postboys config.consumer)

-- `CreateOutputBinding`: the type of the port; the base class throws, and no such port gives null.
abbrev pub output_element : Option (List Port) → ℕ → ℕ ⊎ Failure
output_element none index = inr runtime_error
output_element (some ps) index = elim (get_elem? ps index) [
  | none ↦ inr null_dereference
  | some p ↦ inl p.element
]

abbrev pub setup_element : BindingConfig → Graph → ℕ ⊎ Failure → Graph × Outcome
unfolding setup
setup_element config g (inl element) = setup config element g
setup_element config g (inr failure) = (g, failed failure)

abbrev pub setup_from : BindingConfig → Graph → ℕ → Option Processor → Graph × Outcome
setup_from config g index none = (g, failed out_of_range)
setup_from config g index (some x) = setup_element config g (output_element x.outputs index)

abbrev pub first_socket : BindingConfig → Graph → List Socket → Graph × Outcome
unfolding find_postboy
first_socket config g [] = (g, failed ensure_failed)
first_socket config g (s ∷ ss) =
    setup_from config g (socket_index s.index) (find_postboy s.postboy_name g.postboys)

-- `SetupBinding`.
unfoldable pub setup_binding : BindingConfig → Graph → Graph × Outcome
unfolding setup find_postboy
setup_binding config g = first_socket config g config.producer

abbrev pub many_producers : BindingType → Bool
many_producers BindingType.mpmc = true
many_producers BindingType.mpsc = true
many_producers _ = false

abbrev many_consumers : BindingType → Bool
many_consumers BindingType.mpmc = true
many_consumers BindingType.spmc = true
many_consumers _ = false

abbrev added_socket : Bytes × ℕ → Socket
added_socket (name, index) = record { postboy_name = name; index = some index }

abbrev pub producer_added :
    TypedBinding → Bytes × ℕ → Graph × Option Failure → TypedBinding × Graph × Option Failure
producer_added b s (g, some failure) = (b, g, some failure)
producer_added b s (g, none) = (
  record b {
    config = record b.config { producer = b.config.producer ++ (added_socket s ∷ []) };
    producers = b.producers ++ (s ∷ []);
  },
  g,
  none,
)

abbrev consumer_added :
    TypedBinding → Bytes × ℕ → Graph × Option Failure → TypedBinding × Graph × Option Failure
consumer_added b s (g, some failure) = (b, g, some failure)
consumer_added b s (g, none) = (
  record b {
    config = record b.config { consumer = b.config.consumer ++ (added_socket s ∷ []) };
    consumers = b.consumers ++ (s ∷ []);
  },
  g,
  none,
)

unfoldable pub add_producer :
    TypedBinding → Graph → Bytes × ℕ → TypedBinding × Graph × Option Failure
unfolding link_output
add_producer b g s =
    if many_producers b.config.type
    then producer_added b s (link_output g s b.queue)
    else (b, g, some panicked)

unfoldable pub add_consumer :
    TypedBinding → Graph → Bytes × ℕ → TypedBinding × Graph × Option Failure
unfolding link_input
add_consumer b g s =
    if many_consumers b.config.type
    then consumer_added b s (link_input g s b.queue)
    else (b, g, some panicked)
