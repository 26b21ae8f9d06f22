-- ===== src/Graph/LateProducers.antt =====
-- What AddProducer can do on a binding that was set up.
use postboy.Prelude.{
  ℕ, zero, suc, ◌≡◌, ◌≢◌, refl, sym, subst, ◌⊎◌, inl, inr, Option, none, some, List, [], ◌∷◌,
  get_elem?, Bool-cases, Bytes,
}
use postboy.Graph.Queues.{
  Failure, Queues, Port, Changed, valid, set_impl_producer, clear_producer, attach_impl,
}
use postboy.Graph.Processor.{Processor, link_port, link_output_queue}
use postboy.Graph.Binding.{
  BindingConfig, Graph, Outcome, made, failed, TypedBinding, Socket, find_postboy, outcome, setup,
  setup_resolved, setup_element, setup_from, first_socket, setup_binding, link_output,
  link_found_output, many_producers, producer_added, add_producer, resolve, setup_by_type,
  output_element,
}

-- What holds of the binding that was made, when one was.
abbrev OnMade : (TypedBinding → Type 0) → Graph × Outcome → Type 0
OnMade P (g, made b) = P b
OnMade P (g, failed failure) = Unit {0}

abbrev Unqueued : TypedBinding → Type 0
Unqueued b = b.queue ≡ none

outcome-OnMade :
    (b : TypedBinding) (c : Graph × Option Failure) → Unqueued b → OnMade Unqueued (outcome b c)
outcome-OnMade b (g, none) u = u
outcome-OnMade b (g, some failure) u = tt

setup_resolved-OnMade :
    (config : BindingConfig) (element : ℕ) (g : Graph) (ps cs : Option (List (Bytes × ℕ)))
    → OnMade Unqueued (setup_resolved config element g ps cs)
setup_resolved-OnMade config element g none cs = tt
setup_resolved-OnMade config element g (some ps) none = tt
setup_resolved-OnMade config element g (some ps) (some cs) =
    outcome-OnMade _ (setup_by_type config.type element ps cs g) refl

setup_element-OnMade :
    (config : BindingConfig) (g : Graph) (e : ℕ ⊎ Failure)
    → OnMade Unqueued (setup_element config g e)
unfolding setup
setup_element-OnMade config g (inl element) =
    setup_resolved-OnMade config element g (resolve g.postboys config.producer)
      (resolve g.postboys config.consumer)
setup_element-OnMade config g (inr failure) = tt

setup_from-OnMade :
    (config : BindingConfig) (g : Graph) (index : ℕ) (x : Option Processor)
    → OnMade Unqueued (setup_from config g index x)
setup_from-OnMade config g index none = tt
setup_from-OnMade config g index (some x) =
    setup_element-OnMade config g (output_element x.outputs index)

first_socket-OnMade :
    (config : BindingConfig) (g : Graph) (ss : List Socket)
    → OnMade Unqueued (first_socket config g ss)
unfolding find_postboy
first_socket-OnMade config g [] = tt
first_socket-OnMade config g (s ∷ ss) =
    setup_from-OnMade config g _ (find_postboy s.postboy_name g.postboys)

setup_binding_queue :
    (config : BindingConfig) (g h : Graph) (b : TypedBinding)
    → setup_binding config g ≡ (h, made b)
    → b.queue ≡ none
unfolding setup_binding
setup_binding_queue config g h b e =
    subst (OnMade Unqueued) e (first_socket-OnMade config g config.producer)

-- A null queue cannot be linked to a port that is there.
attach_impl-null : (c : Changed) → (attach_impl none c).2 ≢ none
attach_impl-null (p, qs, none) e = cc e
attach_impl-null (p, qs, some failure) e = cc e

link_port-null :
    (ps : List Port) (index : ℕ) (qs : Queues) (p : Port)
    → get_elem? ps index ≡ some p
    → (link_port set_impl_producer ps index qs none).2 ≢ none
unfolding link_port set_impl_producer
link_port-null [] index qs p at e = cc at
link_port-null (r ∷ ps) zero qs p at e = elim (Bool-cases (valid r)) [
  | inl v ↦ cc (rw v at e)
  | inr v ↦ attach_impl-null (clear_producer r qs) (rw v at e)
]
link_port-null (r ∷ ps) (suc index) qs p at e = link_port-null ps index qs p at e

link_output_queue-null :
    (x : Processor) (index : ℕ) (qs : Queues) (ps : List Port) (p : Port)
    → x.outputs ≡ some ps
    → get_elem? ps index ≡ some p
    → (link_output_queue x index qs none).2 ≢ none
unfolding link_output_queue
link_output_queue-null x index qs ps p outputs at e =
    link_port-null ps index qs p at (rw outputs at e)

link_output-null :
    (now : Graph) (name : Bytes) (index : ℕ) (x : Processor) (ps : List Port) (p : Port)
    → find_postboy name now.postboys ≡ some x
    → x.outputs ≡ some ps
    → get_elem? ps index ≡ some p
    → (link_output now (name, index) none).1 ≢ none
unfolding link_output link_output_queue
link_output-null now name index x ps p found outputs at =
    subst (λ o. (link_found_output now name index none o).1 ≢ none) (sym found)
      (link_output_queue-null x index now.queues ps p outputs at)

producer_added-failure :
    (b : TypedBinding) (s : Bytes × ℕ) (c : Graph × Option Failure)
    → c.1 ≢ none
    → (producer_added b s c).2 ≢ none
producer_added-failure b s (g, none) h = h
producer_added-failure b s (g, some failure) h = h

-- A binding that SetupBinding made never gains a producer: AddProducer fails at every output port
-- that is there, whatever the graph is by then.
add_producer-failure :
    (config : BindingConfig) (g h : Graph) (b : TypedBinding) (now : Graph) (name : Bytes)
    (index : ℕ) (x : Processor) (ps : List Port) (p : Port)
    → setup_binding config g ≡ (h, made b)
    → find_postboy name now.postboys ≡ some x
    → x.outputs ≡ some ps
    → get_elem? ps index ≡ some p
    → (add_producer b now (name, index)).2 ≢ none
unfolding add_producer
add_producer-failure config g h b now name index x ps p made_it found outputs at =
    elim (Bool-cases (many_producers b.config.type)) [
      | inr t ↦ rw t (λ e. cc e)
      | inl t ↦
          let null = setup_binding_queue config g h b made_it in
          let refused =
            subst (λ q. (link_output now (name, index) q).1 ≢ none) (sym null)
              (link_output-null now name index x ps p found outputs at) in
          rw t
            (producer_added-failure b (name, index) (link_output now (name, index) b.queue) refused)
    ]
