-- ===== src/Api/Tests.antt =====
-- The interface's theorems on one postboy with a sample of three.
use postboy.Prelude.{
  ℕ, ◌≡◌, ◌≢◌, refl, ◌⊎◌, inl, Option, none, some, List, [], ◌∷◌, Bytes, codes, bytes_eq,
}
use postboy.Postboy.State.{running, stop_requested}
use postboy.Postboy.Runner.{Runner, Place}
use postboy.Postboy.Lifecycle.{constructed}
use postboy.Graph.Processor.{Processor}
use postboy.Graph.Queues.{Failure}
use postboy.Graph.Binding.{BindingConfig}
use postboy.Graph.Runtime.{Factory, PostboyConfig}
use postboy.Api.Handlers.{Program, find_runner, handle, post_postboy_request_stop}
use postboy.Api.Routing.{handle-Does}

abbrev sample : List ℕ
sample = 30 ∷ 10 ∷ 20 ∷ []

abbrev portless : Unit {0} → Processor ⊎ Failure
portless _ = inl (record { inputs = none; outputs = none })

abbrev factory : Factory
factory = record { Process = Unit {0}; make_processor = portless; init_processor = λ _. none }

abbrev calls : Unit {0} → ℕ
calls _ = 3

abbrev reads_postboy : Bytes → PostboyConfig factory ⊎ Bytes
reads_postboy body = inl (record { name = body; process = tt })

abbrev reads_binding : Bytes → Option BindingConfig
reads_binding body = none

abbrev at_work : Runner
at_work = record (constructed 3) { state = running; place = Place.starting }

abbrev program : Program factory
program = record {
  runtime = record {
    config_postboy = [];
    config_binding = [];
    graph = record { postboys = []; queues = [] };
    bindings = [];
  };
  postboys = record { name = codes "a"; runner = at_work } ∷ [];
}

unknown_b : find_runner (codes "b") program.postboys ≡ none
unfolding find_runner bytes_eq
unknown_b = refl

known_a : find_runner (codes "a") program.postboys ≡ some at_work
unfolding find_runner bytes_eq
known_a = refl

abbrev stopped_program : Program factory
stopped_program =
    (handle factory calls reads_postboy reads_binding program
      (post_postboy_request_stop (codes "a"))).0

handle-Does_example :
    ((q : Runner) × (find_runner (codes "a") stopped_program.postboys ≡ some q)
      × (q.state ≡ stop_requested))
    × ((other : Bytes)
        → codes "a" ≢ other
        → find_runner other stopped_program.postboys ≡ find_runner other program.postboys)
    × (stopped_program.runtime ≡ program.runtime)
handle-Does_example =
    handle-Does factory calls reads_postboy reads_binding program
      (post_postboy_request_stop (codes "a")) (codes "a") at_work refl known_a
