-- ===== src/Api/Handlers.antt =====
-- bin/api.cpp: the handlers, on the program's graph and the postboys' threads.
-- Reading JSON is a parameter; an answer's content is what is printed as JSON. The server turns
-- a status that is not set into 200 and an exception into 500.
use postboy.Prelude.{
  ℕ, ◌⊎◌, inl, inr, Option, none, some, List, [], ◌∷◌, ◌++◌, if◌then◌else◌, Bool, true, false,
  Bytes, bytes_eq,
}
use postboy.Postboy.State.{PostboyState, initialized, ◌is◌, Request, may, request}
use postboy.Postboy.Runner.{Runner, init, run, get_latencies}
use postboy.Postboy.Lifecycle.{constructed}
use postboy.Graph.Queues.{Failure, ensure_failed}
use postboy.Graph.Binding.{BindingConfig}
use postboy.Graph.Runtime.{
  Factory, Runtime, Result, PostboyConfig, create_postboy, create_binding, has_binding,
}
use postboy.Api.Latencies.{Report, report}

pub data Content : Type 0 where
  nothing config : Content
  postboy_config : Bytes → Content
  state_name : PostboyState → Content
  latencies : Report → Content
  plain_text : Bytes → Content

pub data Answer : Type 0 where
  answered : Option ℕ → Content → Answer
  threw : Failure → Answer

-- A postboy of the program, with its thread.
pub record Named : Type 0 where
  pub name : Bytes
  pub runner : Runner

-- A call of the interface; what a handler takes of a request. A sample's number is its deadline.
pub data ApiCall : Type 0 where
  get_config : ApiCall
  get_postboy_config get_postboy_state get_postboy_latencies post_postboy_run : Bytes → ApiCall
  post_postboy_request_stop post_postboy_request_resume post_postboy_request_finish :
      Bytes → ApiCall
  post_postboy_request_sample : Bytes → ℕ → ApiCall
  post_postboy post_binding : Bytes → ApiCall

unfoldable pub find_runner : Bytes → List Named → Option Runner
find_runner name [] = none
find_runner name (n ∷ ns) =
    let later = find_runner name ns in if bytes_eq n.name name then some n.runner else later

abbrev pub replace_runner : Bytes → Runner → List Named → List Named
replace_runner name p [] = []
replace_runner name p (n ∷ ns) =
    let later = replace_runner name p ns in
    if bytes_eq n.name name then record { name = n.name; runner = p } ∷ ns else n ∷ later

abbrev pub not_found : Answer
not_found = answered (some 404) nothing

abbrev pub ok : Content → Answer
ok content = answered none content

-- `RequestStop`, `RequestResume` and `RequestFinish`, undisturbed, and `RequestSample`, which sets the deadline.
abbrev pub requested : Runner → Option PostboyState → Runner
requested p none = p
requested p (some s) = record p { state = s }

abbrev pub sample_requested_by : ℕ → Runner → Option PostboyState → Runner
sample_requested_by deadline p none = p
sample_requested_by deadline p (some s) = record p {
  state = s;
  sample_end = if may Request.sample p.state then deadline else p.sample_end;
}

abbrev pub launched : Runner → Option Runner → Runner × Answer
launched p none = (p, threw ensure_failed)
launched p (some q) = (q, ok nothing)

-- `PostPostboyRun`, by whether the postboy is Initialized.
abbrev pub launched_if : Bool → Runner → Option Runner → Runner × Answer
launched_if true p o = launched p o
launched_if false p o = (p, answered (some 400) nothing)

-- What a handler that looks a postboy up does with it.
unfoldable pub with_postboy : ApiCall → Runner → Runner × Answer
unfolding request run get_latencies report
with_postboy (get_postboy_config name) p = (p, ok (postboy_config name))
with_postboy (get_postboy_state name) p = (p, ok (state_name p.state))
with_postboy (get_postboy_latencies name) p = (p, ok (latencies (report (get_latencies p))))
with_postboy (post_postboy_run name) p = launched_if (p.state is initialized) p (run p)
with_postboy (post_postboy_request_stop name) p =
    (requested p (request Request.stop p.state), ok nothing)
with_postboy (post_postboy_request_resume name) p =
    (requested p (request Request.resume p.state), ok nothing)
with_postboy (post_postboy_request_finish name) p =
    (requested p (request Request.finish p.state), ok nothing)
with_postboy (post_postboy_request_sample name deadline) p =
    (sample_requested_by deadline p (request Request.sample p.state), ok nothing)
with_postboy _ p = (p, ok nothing)

-- The postboy in a call's path.
abbrev pub path_postboy : ApiCall → Option Bytes
path_postboy (get_postboy_config name) = some name
path_postboy (get_postboy_state name) = some name
path_postboy (get_postboy_latencies name) = some name
path_postboy (post_postboy_run name) = some name
path_postboy (post_postboy_request_stop name) = some name
path_postboy (post_postboy_request_resume name) = some name
path_postboy (post_postboy_request_finish name) = some name
path_postboy (post_postboy_request_sample name deadline) = some name
path_postboy _ = none

module _ (f : Factory) where
  pub record Program : Type 0 where
    pub runtime : Runtime f
    pub postboys : List Named

  abbrev pub settled : Program → Bytes → Runner × Answer → Program × Answer
  settled g name (p, answer) = (record g { postboys = replace_runner name p g.postboys }, answer)

  unfoldable pub on_postboy : Program → ApiCall → Bytes → Option Runner → Program × Answer
  unfolding with_postboy
  on_postboy g c name none = (g, not_found)
  on_postboy g c name (some p) = settled g name (with_postboy c p)

  -- A postboy that was constructed and initialised joins the others.
  abbrev pub joined : Program → PostboyConfig f → Option Runner → List Named
  joined g c none = g.postboys
  joined g c (some p) = g.postboys ++ (record { name = c.name; runner = p } ∷ [])

module _ (f : Factory) (call_number : Factory.Process f → ℕ)
    (read_postboy : Bytes → PostboyConfig f ⊎ Bytes)
    (read_binding : Bytes → Option BindingConfig) where
  unfoldable pub created : Program f → PostboyConfig f → Result f → Program f × Answer
  unfolding init
  created g c s = elim s.failure [
    | none ↦ (
      record {
        runtime = s.runtime;
        postboys = joined f g c (init (constructed (call_number c.process)));
      },
      ok nothing,
    )
    | some e ↦ (record { runtime = s.runtime; postboys = g.postboys }, threw e)
  ]

  unfoldable pub create_or_conflict :
      Program f → PostboyConfig f → Option Runner → Program f × Answer
  unfolding create_postboy created
  create_or_conflict g c (some p) = (g, answered (some 409) nothing)
  create_or_conflict g c none = created g c (create_postboy f g.runtime c)

  unfoldable pub posted_postboy : Program f → PostboyConfig f ⊎ Bytes → Program f × Answer
  unfolding find_runner create_or_conflict
  posted_postboy g (inr message) = (g, answered (some 400) (plain_text message))
  posted_postboy g (inl c) = create_or_conflict g c (find_runner c.name g.postboys)

  abbrev pub bound : Program f → Result f → Program f × Answer
  bound g s = (
    record { runtime = s.runtime; postboys = g.postboys },
    elim s.failure [ none ↦ ok nothing | some e ↦ threw e ],
  )

  unfoldable pub posted_binding : Program f → Option BindingConfig → Program f × Answer
  unfolding create_binding has_binding
  posted_binding g none = (g, answered (some 400) nothing)
  posted_binding g (some c) =
      if has_binding c.name g.runtime.bindings
      then (g, answered (some 409) nothing)
      else bound g (create_binding f g.runtime c)

  -- The routes.
  unfoldable pub handle : Program f → ApiCall → Program f × Answer
  unfolding find_runner on_postboy posted_postboy posted_binding
  handle g get_config = (g, ok config)
  handle g (post_postboy body) = posted_postboy g (read_postboy body)
  handle g (post_binding body) = posted_binding g (read_binding body)
  handle g (get_postboy_config name) =
      on_postboy f g (get_postboy_config name) name (find_runner name g.postboys)
  handle g (get_postboy_state name) =
      on_postboy f g (get_postboy_state name) name (find_runner name g.postboys)
  handle g (get_postboy_latencies name) =
      on_postboy f g (get_postboy_latencies name) name (find_runner name g.postboys)
  handle g (post_postboy_run name) =
      on_postboy f g (post_postboy_run name) name (find_runner name g.postboys)
  handle g (post_postboy_request_stop name) =
      on_postboy f g (post_postboy_request_stop name) name (find_runner name g.postboys)
  handle g (post_postboy_request_resume name) =
      on_postboy f g (post_postboy_request_resume name) name (find_runner name g.postboys)
  handle g (post_postboy_request_finish name) =
      on_postboy f g (post_postboy_request_finish name) name (find_runner name g.postboys)
  handle g (post_postboy_request_sample name deadline) =
      on_postboy f g (post_postboy_request_sample name deadline) name (find_runner name g.postboys)
