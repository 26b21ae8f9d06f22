-- ===== src/Graph/Validation.antt =====
-- What a prepared program and a late postboy are.
use postboy.Prelude.{
  ◌≡◌, ◌≢◌, refl, ◌↔◌, ◌⊎◌, inl, inr, Option, none, some, List, [], ◌∷◌, ◌++◌, arith, true, false,
  not, ◌||◌, Bool-cases, Option-cases, Bytes, bytes_eq_refl,
}
use postboy.Graph.Queues.{Failure, ensure_failed, Port, valid}
use postboy.Graph.Processor.{Processor, is_valid, all_valid, has_ports, is_valid_ports}
use postboy.Graph.Binding.{Member}
use postboy.Graph.Runtime.{
  Factory, Runtime, PostboyConfig, Result, fails, and_then, validated, create_postboys,
  create_bindings, validate_graph, prepare, create_postboy, has_postboy, constructed_late,
}

-- Every port holds a queue.
abbrev pub Linked : Option (List Port) → Type 0
Linked none = Unit {0}
Linked (some []) = Unit {0}
Linked (some (p ∷ ps)) = (p.impl ≢ none) × Linked (some ps)

abbrev pub AllLinked : List Member → Type 0
AllLinked [] = Unit {0}
AllLinked (m ∷ ms) = Linked m.processor.inputs × Linked m.processor.outputs × AllLinked ms

all_valid-Linked : (ps : List Port) → all_valid ps ≡ true → Linked (some ps)
unfolding all_valid valid
all_valid-Linked [] h = tt
all_valid-Linked (p ∷ ps) h = elim (Option-cases p.impl) [
  | inl e ↦ absurd (cc (rw e at h))
  | inr (a, e) ↦ ((λ n. cc (e, n)), all_valid-Linked ps (ground arith))
]

valid-Linked : (o : Option (List Port)) → (not (has_ports o) || is_valid_ports o) ≡ true → Linked o
valid-Linked none h = tt
valid-Linked (some ps) h = all_valid-Linked ps h

validate_graph-AllLinked : (ms : List Member) → validate_graph ms ≡ none → AllLinked ms
unfolding validate_graph is_valid
validate_graph-AllLinked [] h = tt
validate_graph-AllLinked (m ∷ ms) h = elim (Bool-cases (is_valid m.processor)) [
  | inr v ↦ absurd (cc (rw v at h))
  | inl v ↦ (
    valid-Linked m.processor.inputs (ground (arith, v)),
    valid-Linked m.processor.outputs (ground (arith, v)),
    validate_graph-AllLinked ms (rw v at h),
  )
]

has_postboy-append :
    (name : Bytes) (x : Processor) (ms : List Member)
    → has_postboy name (ms ++ (record { name = name; processor = x } ∷ [])) ≡ true
unfolding has_postboy
has_postboy-append name x [] = rw (bytes_eq_refl name) refl
has_postboy-append name x (m ∷ ms) = ground (arith, has_postboy-append name x ms)

module _ (f : Factory) where
  and_then-AllLinked :
      (s : Result f)
      → (and_then f s (validated f)).failure ≡ none
      → AllLinked (and_then f s (validated f)).runtime.graph.postboys
  unfolding validate_graph
  and_then-AllLinked s h = elim (Option-cases s.failure) [
    | inl e ↦ rw e (validate_graph-AllLinked s.runtime.graph.postboys (rw e at h))
    | inr (x, e) ↦ absurd (cc (rw e at h))
  ]

  constructed_late_lem :
      (r : Runtime f) (c : PostboyConfig f) (x : Processor ⊎ Failure) (initialised : Option Failure)
      → has_postboy c.name r.graph.postboys ≡ false
      → let s = constructed_late f r c x initialised in
        (s.runtime.config_postboy ≡ r.config_postboy)
        × ((s.failure ≡ none) ↔ (has_postboy c.name s.runtime.graph.postboys ≡ true))
  constructed_late_lem r c (inr e) i q = (refl, ((λ h. absurd (cc h)), (λ h. absurd (cc (q, h)))))
  constructed_late_lem r c (inl x) (some e) q =
      (refl, ((λ h. absurd (cc h)), (λ h. absurd (cc (q, h)))))
  constructed_late_lem r c (inl x) none q =
      (refl, ((λ h. has_postboy-append c.name x r.graph.postboys), (λ h. refl)))

  -- A program that `Prepare` accepts has every port of every postboy linked to a queue.
  pub prepare-AllLinked :
      (r : Runtime f)
      → (prepare f r).failure ≡ none
      → AllLinked (prepare f r).runtime.graph.postboys
  unfolding prepare
  prepare-AllLinked r h =
      and_then-AllLinked
        (and_then f (create_postboys f r.config_postboy r) (create_bindings f r.config_binding)) h

  -- Creating a postboy in a running program: a name in use is refused and nothing changes; otherwise
  -- its configuration is kept whatever comes, and the graph has the postboy exactly when nothing
  -- failed.
  pub create_postboy_lem :
      (r : Runtime f) (c : PostboyConfig f)
      → ((has_postboy c.name r.graph.postboys ≡ true)
          × (create_postboy f r c ≡ fails f r ensure_failed))
        ⊎ ((has_postboy c.name r.graph.postboys ≡ false)
            × ((create_postboy f r c).runtime.config_postboy ≡ r.config_postboy ++ (c ∷ []))
            × (((create_postboy f r c).failure ≡ none)
                ↔ (has_postboy c.name (create_postboy f r c).runtime.graph.postboys ≡ true)))
  unfolding create_postboy
  create_postboy_lem r c = elim (Bool-cases (has_postboy c.name r.graph.postboys)) [
    | inl q ↦ inl (q, rw q refl)
    | inr q ↦
        let kept = record r { config_postboy = r.config_postboy ++ (c ∷ []) } in
        let late =
          constructed_late_lem kept c (f.make_processor c.process) (f.init_processor c.process) q in
        inr (q, rw q late.0, rw q late.1)
  ]
