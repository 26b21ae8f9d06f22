-- ===== src/Graph/Producers.antt =====
-- Each queue's count of producers is the number of the output ports that hold it.
use postboy.Prelude.{
  ℕ, zero, suc, ◌+◌, ◌-◌, ◌%◌, ◌^◌, ◌≡◌, ◌≢◌, refl, sym, subst, ◌∙◌, inl, inr, Option, none, some,
  List, [], ◌∷◌, arith, get_elem?, set, get_elem?-set_ne, ◌==◌, if◌then◌else◌, Bool, true, false,
  ℕ_discrete, Bool-cases, Option-cases,
}
use postboy.Graph.Queues.{
  Failure, ensure_failed, Queue, Queues, Port, Changed, valid, with_impl, clear_producer,
  set_impl_producer, increase_active_producers, decrease_active_producers, clear_at, with_active,
  cleared, attached, attach_impl,
}
use postboy.Graph.Processor.{
  unlink_behind, is_valid_ports, unlink_input_queues, is_valid, with_outputs, PortsChanged, keep,
  replaced, Processor, link_port, link_output_queue, unlink_output_queues, unlink_queues,
}

abbrev pub holds : ℕ → Option ℕ → ℕ
holds address none = 0
holds address (some a) = if a == address then 1 else 0

-- The ports that hold this queue.
abbrev pub links : ℕ → List Port → ℕ
links address [] = 0
links address (p ∷ ps) = holds address p.impl + links address ps

-- Every queue counts these ports, and `others` that hold it elsewhere.
abbrev pub Balanced : (ℕ → ℕ) → List Port → Queues → Type 0
Balanced others ps qs =
    (address : ℕ) (q : Queue)
    → get_elem? qs address ≡ some q
    → q.active_producers ≡ (others address + links address ps) % 2 ^ 64

get_elem?-set-some : (qs : Queues) (i : ℕ) {q r : Queue} → get_elem? (set qs i q) i ≡ some r → q ≡ r
get_elem?-set-some [] i h = cc h
get_elem?-set-some (x ∷ qs) zero h = cc h
get_elem?-set-some (x ∷ qs) (suc i) h = get_elem?-set-some qs i h

-- One queue's count replaced, the links of the others being the same.
set-Balanced :
    (others : ℕ → ℕ) (ps rs : List Port) (qs : Queues) (address : ℕ) (q : Queue)
    → Balanced others ps qs
    → ((other : ℕ) → address ≢ other → links other ps ≡ links other rs)
    → q.active_producers ≡ (others address + links address rs) % 2 ^ 64
    → Balanced others rs (set qs address q)
set-Balanced others ps rs qs address q b same count other r found =
    elim (ℕ_discrete address other) [
      | yes e ↦
          let same_queue =
            get_elem?-set-some qs other
              (subst (λ i. get_elem? (set qs i q) other ≡ some r) e found) in
          subst (λ x. x.active_producers ≡ (others other + links other rs) % 2 ^ 64) same_queue
            (subst (λ i. q.active_producers ≡ (others i + links i rs) % 2 ^ 64) e count)
      | no ne ↦ rw (sym (same other ne)) (b other r (sym (get_elem?-set_ne qs q ne) ∙ found))
    ]

-- What holds of a change that met no failure.
abbrev pub OnOk : {A : Type 0} → (A → Queues → Type 0) → A × Queues × Option Failure → Type 0
OnOk P (a, qs, none) = P a qs
OnOk P (a, qs, some failure) = Unit {0}

abbrev BalancedPort : (ℕ → ℕ) → List Port → Port → Queues → Type 0
BalancedPort others ps p qs = Balanced others (p ∷ ps) qs

abbrev FreePort : (ℕ → ℕ) → List Port → Port → Queues → Type 0
FreePort others ps p qs = (p.impl ≡ none) × Balanced others (p ∷ ps) qs

lowered-Balanced :
    (others : ℕ → ℕ) (p : Port) (ps : List Port) (qs : Queues) (address : ℕ) (q : Queue)
    (fails : Bool)
    → Balanced others (with_impl p (some address) ∷ ps) qs
    → get_elem? qs address ≡ some q
    → OnOk (FreePort others ps) (
        cleared p (
          set qs address (with_active q ((q.active_producers + (2 ^ 64 - 1)) % 2 ^ 64)),
          if fails then some ensure_failed else none,
        ))
lowered-Balanced others p ps qs address q true b e = tt
lowered-Balanced others p ps qs address q false b e =
    let count = b address q e in
    (
      refl,
      set-Balanced others (with_impl p (some address) ∷ ps) (with_impl p none ∷ ps) qs address _ b
          (λ other ne. ground arith) (ground arith),
    )

-- Clearing a port that holds a queue.
clear_at-Balanced :
    (others : ℕ → ℕ) (p : Port) (ps : List Port) (qs : Queues) (held : Option ℕ)
    → Balanced others (with_impl p held ∷ ps) qs
    → OnOk (FreePort others ps) (clear_at p qs held)
unfolding decrease_active_producers
clear_at-Balanced others p ps qs none b = (refl, b)
clear_at-Balanced others p ps qs (some address) b = elim (Option-cases (get_elem? qs address)) [
  | inl e ↦ rw e tt
  | inr (q, e) ↦ rw e (lowered-Balanced others p ps qs address q _ b e)
]

raised-Balanced :
    (others : ℕ → ℕ) (p : Port) (ps : List Port) (qs : Queues) (address : ℕ) (q : Queue)
    (fails : Bool)
    → Balanced others (with_impl p none ∷ ps) qs
    → get_elem? qs address ≡ some q
    → OnOk (BalancedPort others ps) (
        attached p address (
          set qs address (with_active q ((q.active_producers + 1) % 2 ^ 64)),
          if fails then some ensure_failed else none,
        ))
raised-Balanced others p ps qs address q true b e = tt
raised-Balanced others p ps qs address q false b e =
    let count = b address q e in
    set-Balanced others (with_impl p none ∷ ps) (with_impl p (some address) ∷ ps) qs address _ b
      (λ other ne. ground arith) (ground arith)

attach_impl-Balanced :
    (others : ℕ → ℕ) (ps : List Port) (queue : Option ℕ) (c : Changed)
    → OnOk (FreePort others ps) c
    → OnOk (BalancedPort others ps) (attach_impl queue c)
unfolding increase_active_producers
attach_impl-Balanced others ps queue (p, qs, some failure) b = tt
attach_impl-Balanced others ps none (p, qs, none) b = tt
attach_impl-Balanced others ps (some address) (p, qs, none) (free, b) =
    elim (Option-cases (get_elem? qs address)) [
      | inl e ↦ rw e tt
      | inr (q, e) ↦ elim (Bool-cases (q.element == p.element)) [
        | inl t ↦
            rw (e, t)
              (raised-Balanced others p ps qs address q _ (λ a r found. b a r found ∙ rw free refl)
                e)
        | inr t ↦ rw (e, t) tt
      ]
    ]

-- A port that is kept counts with the others.
kept-Balanced :
    (others : ℕ → ℕ) (p : Port) (c : PortsChanged)
    → OnOk (Balanced (λ a. others a + holds a p.impl)) c
    → OnOk (Balanced others) (keep p c)
kept-Balanced others p (rs, qs, none) b = λ a q found. omega (arith, b a q found)
kept-Balanced others p (rs, qs, some failure) b = tt

replaced-Balanced :
    (others : ℕ → ℕ) (ps : List Port) (c : Changed)
    → OnOk (BalancedPort others ps) c
    → OnOk (Balanced others) (replaced ps c)
replaced-Balanced others ps (p, qs, none) b = b
replaced-Balanced others ps (p, qs, some failure) b = tt

link_port-Balanced :
    (others : ℕ → ℕ) (ps : List Port) (index : ℕ) (qs : Queues) (queue : Option ℕ)
    → Balanced others ps qs
    → OnOk (Balanced others) (link_port set_impl_producer ps index qs queue)
unfolding link_port valid set_impl_producer clear_producer
link_port-Balanced others [] index qs queue b = b
link_port-Balanced others (p ∷ ps) zero qs queue b = elim (Option-cases p.impl) [
  | inr (a, e) ↦ rw e tt
  | inl e ↦
      let free : BalancedPort others ps (with_impl p none) qs =
        λ a r found. b a r found ∙ rw e refl in
      rw e (
        replaced-Balanced others ps (attach_impl queue (with_impl p none, qs, none))
          (attach_impl-Balanced others ps queue (with_impl p none, qs, none) (refl, free)))
]
link_port-Balanced others (p ∷ ps) (suc index) qs queue b = kept-Balanced others p _ (
    link_port-Balanced (λ a. others a + holds a p.impl) ps index qs queue
      (λ a q found. omega (arith, b a q found)))

-- No port holds a queue.
abbrev pub AllFree : List Port → Type 0
AllFree [] = Unit {0}
AllFree (p ∷ ps) = (p.impl ≡ none) × AllFree ps

holds_free : (a : ℕ) (impl : Option ℕ) → impl ≡ none → holds a impl ≡ 0
holds_free a impl e = rw e refl

abbrev FreePorts : (ℕ → ℕ) → List Port → Queues → Type 0
FreePorts others ps qs = AllFree ps × Balanced others ps qs

kept-FreePorts :
    (others : ℕ → ℕ) (p : Port) (c : PortsChanged)
    → p.impl ≡ none
    → OnOk (FreePorts others) c
    → OnOk (FreePorts others) (keep p c)
kept-FreePorts others p (rs, qs, none) e (free, b) =
    ((e, free), λ a q found. omega (arith, b a q found, holds_free a p.impl e))
kept-FreePorts others p (rs, qs, some failure) e b = tt

behind-FreePorts :
    (others : ℕ → ℕ) (ps : List Port) (c : Changed)
    → OnOk (FreePort others ps) c
    → ((qs : Queues) → Balanced others ps qs → OnOk (FreePorts others) (unlink_output_queues ps qs))
    → OnOk (FreePorts others) (unlink_behind (unlink_output_queues ps) ps c)
behind-FreePorts others ps (p, qs, none) (e, b) rest =
    kept-FreePorts others p (unlink_output_queues ps qs) e
      (rest qs (λ a q found. omega (arith, b a q found, holds_free a p.impl e)))
behind-FreePorts others ps (p, qs, some failure) b rest = tt

links_free : (a : ℕ) (ps : List Port) → AllFree ps → links a ps ≡ 0
links_free a [] free = refl
links_free a (p ∷ ps) free = rw (free.0, links_free a ps free.1) refl

unlink_output_queues-Balanced :
    (others : ℕ → ℕ) (ps : List Port) (qs : Queues)
    → Balanced others ps qs
    → OnOk (FreePorts others) (unlink_output_queues ps qs)
unfolding unlink_output_queues clear_producer
unlink_output_queues-Balanced others [] qs b = (tt, b)
unlink_output_queues-Balanced others (p ∷ ps) qs b =
    behind-FreePorts others ps (clear_at p qs p.impl) (clear_at-Balanced others p ps qs p.impl b)
      (λ qs' b'. unlink_output_queues-Balanced others ps qs' b')

abbrev pub output_ports : Processor → List Port
output_ports x = elim x.outputs [ none ↦ [] | some ps ↦ ps ]

abbrev pub BalancedProcessor : (ℕ → ℕ) → Processor → Queues → Type 0
BalancedProcessor others x qs = Balanced others (output_ports x) qs

with_outputs-Balanced :
    (others : ℕ → ℕ) (x : Processor) (c : PortsChanged)
    → OnOk (Balanced others) c
    → OnOk (BalancedProcessor others) (with_outputs x c)
with_outputs-Balanced others x (ps, qs, none) b = b
with_outputs-Balanced others x (ps, qs, some failure) b = tt

-- Where every queue's count of producers is, modulo 2^64, the number of the ports that hold it,
-- linking an output, whatever the index, the port's type and the queue, either fails or keeps it so:
-- the ports are this processor's outputs and those elsewhere.
pub link_output_queue-Balanced :
    (others : ℕ → ℕ) (x : Processor) (index : ℕ) (qs : Queues) (queue : Option ℕ)
    → BalancedProcessor others x qs
    → OnOk (BalancedProcessor others) (link_output_queue x index qs queue)
unfolding link_output_queue
link_output_queue-Balanced others x index qs queue b = elim (Option-cases x.outputs) [
  | inl e ↦ rw e tt
  | inr (ps, e) ↦
      let b' = rw e at b in
      rw e (
        with_outputs-Balanced others x (link_port set_impl_producer ps index qs queue)
          (link_port-Balanced others ps index qs queue b'))
]

abbrev pub Released : (ℕ → ℕ) → Processor → Queues → Type 0
Released others x qs =
    AllFree (output_ports x)
    × ((address : ℕ) (q : Queue)
        → get_elem? qs address ≡ some q
        → q.active_producers ≡ others address % 2 ^ 64)

with_outputs-Released :
    (others : ℕ → ℕ) (x : Processor) (c : PortsChanged)
    → OnOk (FreePorts others) c
    → OnOk (Released others) (with_outputs x c)
with_outputs-Released others x (ps, qs, none) (free, b) =
    (free, λ a q found. omega (arith, b a q found, links_free a ps free))
with_outputs-Released others x (ps, qs, some failure) b = tt

-- Where every queue's count of producers is, modulo 2^64, the number of the ports that hold it,
-- unlinking a valid processor either fails or frees all its outputs, and leaves every
-- queue's count equal, modulo 2^64, to the number of the ports elsewhere that hold the queue.
pub unlink_queues-Released :
    (others : ℕ → ℕ) (x : Processor) (qs : Queues)
    → is_valid x ≡ true
    → BalancedProcessor others x qs
    → OnOk (Released others) (unlink_queues x qs)
unfolding unlink_queues is_valid
unlink_queues-Released others x qs v b = elim (Option-cases x.outputs) [
  | inl e ↦ let b' = rw e at b in rw e (tt, λ a q found. omega (arith, b' a q found))
  | inr (ps, e) ↦
      let b' = rw e at b in
      let v' : is_valid_ports (some ps) ≡ true = ground (arith, rw e at v) in
      rw (e, v')
        (with_outputs-Released others
          (record { inputs = unlink_input_queues x.inputs; outputs = none })
          (unlink_output_queues ps qs) (unlink_output_queues-Balanced others ps qs b'))
]
