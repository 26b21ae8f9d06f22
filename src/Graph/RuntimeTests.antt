-- ===== src/Graph/RuntimeTests.antt =====
-- Preparing and extending a small graph.
use postboy.Prelude.{
  if◌then◌else◌, ◌≡◌, refl, ◌↔◌, ◌⊎◌, inl, none, some, List, [], ◌∷◌, ◌++◌, Bool, true, false,
  codes, bytes_eq,
}
use postboy.Graph.Queues.{
  Failure, ensure_failed, mpmc, valid, set_impl_producer, set_impl_consumer, clear_producer,
  clear_consumer, increase_active_producers,
}
use postboy.Graph.Processor.{
  Processor, link_port, link_output_queue, link_input_queue, all_valid, is_valid,
}
use postboy.Graph.Binding.{
  BindingType, BindingConfig, Graph, TypedBinding, Outcome, find_postboy, setup, setup_spsc,
  setup_mpmc, setup_binding, link_output, link_input,
}
use postboy.Graph.Runtime.{
  Factory, Runtime, PostboyConfig, fails, has_postboy, has_binding, create_postboys,
  create_bindings, validate_graph, prepare, create_postboy,
}
use postboy.Graph.Validation.{AllLinked, prepare-AllLinked, create_postboy_lem}
use postboy.Graph.Prepared.{
  PreparedConfig, PreparedCall, run_prepared, all_acceptable, whole_run, run_prepared_lem, play,
  constructions, refused, up_to_refused,
}

-- A configuration of a source and a sink, joined by one queue.
data Kind : Type 0 where
  makes takes : Kind

abbrev source_or_sink : Kind → Processor ⊎ Failure
source_or_sink makes =
    inl (record { inputs = none; outputs = some (record { element = 1; impl = none } ∷ []) })
source_or_sink takes =
    inl (record { inputs = some (record { element = 1; impl = none } ∷ []); outputs = none })

abbrev factory : Factory
factory = record { Process = Kind; make_processor = source_or_sink; init_processor = λ _. none }

abbrev pair_config : BindingConfig
pair_config = record {
  name = codes "q";
  type = BindingType.mpmc;
  producer = record { postboy_name = codes "a"; index = none } ∷ [];
  consumer = record { postboy_name = codes "b"; index = some 0 } ∷ [];
}

abbrev pair_runtime : Runtime factory
pair_runtime = record {
  config_postboy =
      record { name = codes "a"; process = makes }
      ∷ record { name = codes "b"; process = takes }
      ∷ [];
  config_binding = pair_config ∷ [];
  graph = record { postboys = []; queues = [] };
  bindings = [];
}

pair_prepared : (prepare factory pair_runtime).failure ≡ none
unfolding prepare create_postboys create_bindings has_postboy has_binding validate_graph bytes_eq
    setup_binding setup find_postboy setup_spsc setup_mpmc link_output link_input link_output_queue
    link_input_queue link_port valid all_valid is_valid set_impl_producer set_impl_consumer
    clear_producer clear_consumer increase_active_producers
pair_prepared = refl

prepare-AllLinked_example : AllLinked (prepare factory pair_runtime).runtime.graph.postboys
prepare-AllLinked_example = prepare-AllLinked factory pair_runtime pair_prepared

abbrev late_config : PostboyConfig factory
late_config = record { name = codes "c"; process = takes }

create_postboy_lem_example :
    ((has_postboy (codes "c") [] ≡ true)
      × (create_postboy factory pair_runtime late_config
          ≡ fails factory pair_runtime ensure_failed))
    ⊎ ((has_postboy (codes "c") [] ≡ false)
        × ((create_postboy factory pair_runtime late_config).runtime.config_postboy
            ≡ pair_runtime.config_postboy ++ (late_config ∷ []))
        × (((create_postboy factory pair_runtime late_config).failure ≡ none) ↔ (
            has_postboy
              (codes "c")
              (create_postboy factory pair_runtime late_config).runtime.graph.postboys
            ≡ true)))
create_postboy_lem_example = create_postboy_lem factory pair_runtime late_config

abbrev unlinked_source : Processor
unlinked_source = record {
  inputs = none;
  outputs = some (record { element = 1; impl = none } ∷ []);
}

abbrev unlinked_sink : Processor
unlinked_sink = record { inputs = some (record { element = 1; impl = none } ∷ []); outputs = none }

abbrev pair_graph : Graph
pair_graph = record {
  postboys =
      record { name = codes "a"; processor = unlinked_source }
      ∷ record { name = codes "b"; processor = unlinked_sink }
      ∷ [];
  queues = [];
}

abbrev later_graph : Graph
later_graph = record {
  postboys = record { name = codes "d"; processor = unlinked_source } ∷ [];
  queues = [];
}

abbrev pair_binding : TypedBinding
pair_binding = record {
  config = pair_config;
  element = 1;
  queue = none;
  producers = (codes "a", 0) ∷ [];
  consumers = (codes "b", 0) ∷ [];
}

abbrev joined_graph : Graph
joined_graph = record {
  postboys =
      record {
        name = codes "a";
        processor = record unlinked_source {
          outputs = some (record { element = 1; impl = some 0 } ∷ []);
        };
      }
      ∷ record {
        name = codes "b";
        processor = record unlinked_sink {
          inputs = some (record { element = 1; impl = some 0 } ∷ []);
        };
      }
      ∷ [];
  queues = record { kind = mpmc; element = 1; active_producers = 1 } ∷ [];
}

pair_made : setup_binding pair_config pair_graph ≡ (joined_graph, Outcome.made pair_binding)
unfolding bytes_eq setup_binding setup find_postboy setup_mpmc link_output link_input
    link_output_queue link_input_queue link_port valid set_impl_producer set_impl_consumer
    clear_producer clear_consumer increase_active_producers
pair_made = refl

found_later : find_postboy (codes "d") later_graph.postboys ≡ some unlinked_source
unfolding find_postboy bytes_eq
found_later = refl

abbrev prepared_once : PreparedConfig
prepared_once = record {
  name = codes "p";
  is_takeable = false;
  is_putable = false;
  call_number = 2;
}

abbrev prepared_sink : PreparedConfig
prepared_sink = record { name = codes "s"; is_takeable = true; is_putable = false; call_number = 2 }

-- The third call throws.
abbrev throws_later : List PreparedCall → Bool
throws_later (a ∷ b ∷ c ∷ cs) = true
throws_later _ = false

run_prepared_lem_example : run_prepared throws_later (prepared_once ∷ prepared_sink ∷ []) ≡ (
    if all_acceptable (prepared_once ∷ prepared_sink ∷ [])
    then play throws_later
        (constructions (prepared_once ∷ prepared_sink ∷ [])
          ++ whole_run (prepared_once ∷ prepared_sink ∷ []))
        []
    else refused
        (play throws_later (constructions (up_to_refused (prepared_once ∷ prepared_sink ∷ []))) []))
run_prepared_lem_example = run_prepared_lem throws_later (prepared_once ∷ prepared_sink ∷ [])
