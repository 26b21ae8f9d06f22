-- ===== src/Graph/Runtime.antt =====
-- src/postboy/runtime/runtime.cpp: the postboys and bindings of a configuration, by name.
-- Making a processor and initialising it are parameters; either may throw.
use postboy.Prelude.{
  ◌⊎◌, inl, inr, Option, none, some, List, [], ◌∷◌, ◌++◌, if◌then◌else◌, Bool, false, ◌||◌, Bytes,
  bytes_eq,
}
use postboy.Graph.Queues.{Failure, ensure_failed}
use postboy.Graph.Processor.{Processor, is_valid}
use postboy.Graph.Binding.{
  Member, Graph, BindingConfig, TypedBinding, Outcome, made, failed, setup_binding,
}

-- The processor factories and `Processor::Init`.
pub record Factory : Type 1 where
  pub Process : Type 0
  pub make_processor : Process → Processor ⊎ Failure
  pub init_processor : Process → Option Failure

unfoldable pub has_postboy : Bytes → List Member → Bool
has_postboy name [] = false
has_postboy name (m ∷ ms) = bytes_eq m.name name || has_postboy name ms

unfoldable pub has_binding : Bytes → List TypedBinding → Bool
has_binding name [] = false
has_binding name (b ∷ bs) = bytes_eq b.config.name name || has_binding name bs

-- `ValidateGraph`.
unfoldable pub validate_graph : List Member → Option Failure
unfolding is_valid
validate_graph [] = none
validate_graph (m ∷ ms) = if is_valid m.processor then validate_graph ms else some ensure_failed

unfoldable pub find_binding : Bytes → List TypedBinding → Option TypedBinding
find_binding name [] = none
find_binding name (b ∷ bs) =
    let later = find_binding name bs in if bytes_eq b.config.name name then some b else later

module _ (f : Factory) where
  open f use {Process, make_processor, init_processor}

  pub record PostboyConfig : Type 0 where
    pub name : Bytes
    pub process : Process

  pub record Runtime : Type 0 where
    pub config_postboy : List PostboyConfig
    pub config_binding : List BindingConfig
    pub graph : Graph
    pub bindings : List TypedBinding

  pub record Result : Type 0 where
    pub runtime : Runtime
    pub failure : Option Failure

  abbrev pub ok : Runtime → Result
  ok r = record { runtime = r; failure = none }

  abbrev pub fails : Runtime → Failure → Result
  fails r e = record { runtime = r; failure = some e }

  abbrev pub with_postboy : Runtime → Bytes → Processor → Runtime
  with_postboy r name x = record r {
    graph = record {
      postboys = r.graph.postboys ++ (record { name = name; processor = x } ∷ []);
      queues = r.graph.queues;
    };
  }

  abbrev pub inserted : Runtime → Bytes → Processor → Option Failure → Result
  inserted r name x none = ok (with_postboy r name x)
  inserted r name x (some e) = fails r e

  -- The rest of a creation: construct, refuse a name in use, initialise, insert.
  abbrev pub create_from : Runtime → PostboyConfig → Processor ⊎ Failure → Result
  unfolding has_postboy
  create_from r c (inr e) = fails r e
  create_from r c (inl x) =
      if has_postboy c.name r.graph.postboys
      then fails r ensure_failed
      else inserted r c.name x (init_processor c.process)

  unfoldable pub create_postboys : List PostboyConfig → Runtime → Result
  create_postboys [] r = ok r
  create_postboys (c ∷ cs) r =
      let s = create_from r c (make_processor c.process) in
      elim s.failure [ none ↦ create_postboys cs s.runtime | some e ↦ s ]

  abbrev pub with_binding : Runtime → Graph × Outcome → Result
  unfolding has_binding
  with_binding r (g, failed e) = fails (record r { graph = g }) e
  with_binding r (g, made b) =
      if has_binding b.config.name r.bindings
      then fails (record r { graph = g }) ensure_failed
      else ok (record r { graph = g; bindings = r.bindings ++ (b ∷ []) })

  unfoldable pub create_bindings : List BindingConfig → Runtime → Result
  unfolding setup_binding
  create_bindings [] r = ok r
  create_bindings (c ∷ cs) r =
      let s = with_binding r (setup_binding c r.graph) in
      elim s.failure [ none ↦ create_bindings cs s.runtime | some e ↦ s ]

  abbrev pub and_then : Result → (Runtime → Result) → Result
  and_then s next = elim s.failure [ none ↦ next s.runtime | some e ↦ s ]

  abbrev pub validated : Runtime → Result
  unfolding validate_graph
  validated r = record { runtime = r; failure = validate_graph r.graph.postboys }

  -- `Prepare`, after the threads are loaded and the prepared postboys have run.
  unfoldable pub prepare : Runtime → Result
  unfolding create_postboys create_bindings
  prepare r =
      and_then (and_then (create_postboys r.config_postboy r) (create_bindings r.config_binding))
        validated

  abbrev pub constructed_late :
      Runtime → PostboyConfig → Processor ⊎ Failure → Option Failure → Result
  constructed_late r c (inr e) initialised = fails r e
  constructed_late r c (inl x) initialised = inserted r c.name x initialised

  -- `CreatePostboy` and `CreateBinding` of a running program. Their configuration is added first.
  unfoldable pub create_postboy : Runtime → PostboyConfig → Result
  unfolding has_postboy
  create_postboy r c =
      if has_postboy c.name r.graph.postboys
      then fails r ensure_failed
      else let kept = record r { config_postboy = r.config_postboy ++ (c ∷ []) } in
        constructed_late kept c (make_processor c.process) (init_processor c.process)

  abbrev pub with_late_binding : Runtime → Graph × Outcome → Result
  with_late_binding r (g, failed e) = fails (record r { graph = g }) e
  with_late_binding r (g, made b) = ok (record r { graph = g; bindings = r.bindings ++ (b ∷ []) })

  unfoldable pub create_binding : Runtime → BindingConfig → Result
  unfolding has_binding setup_binding
  create_binding r c =
      if has_binding c.name r.bindings
      then fails r ensure_failed
      else with_late_binding (record r { config_binding = r.config_binding ++ (c ∷ []) })
          (setup_binding c r.graph)
