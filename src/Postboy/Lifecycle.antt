-- ===== src/Postboy/Lifecycle.antt =====
-- The life cycle of a postboy under every interleaving of its thread with requests.
use postboy.Prelude.{
  ℕ, ◌≤◌, ◌≡◌, refl, ◌∙◌, inl, inr, some, List, [], ◌∷◌, arith, replicate, ltb, ◌==◌, if◌then◌else◌,
  true, ◌&&◌, Bool-cases,
}
use postboy.Postboy.State.{
  PostboyState, not_initialized, initialized, running, stop_requested, stopped, resume_requested,
  finished, sample_requested, sampling, ◌is◌, cas, Request, may, target, round, round_guarded,
  is→eq,
}
use postboy.Postboy.Runner.{Runner, Place, Call, init, run, step, step_at}
use postboy.Postboy.Runner.{
  absent, starting, outer, run_head, reload_run, sample_head, reload_sample, leave_sampling,
  at_sample, at_stop, at_resume, at_stopped, finishing, done,
}

-- What may happen to a postboy: the owner initialises and starts it, its thread moves, and any thread
-- makes a round of a request's loop, with a local state in its condition.
pub data Event (p : Runner) : Runner → Type 0 where
  initialise : {q : Runner} → init p ≡ some q → Event p q
  start : {q : Runner} → run p ≡ some q → Event p q
  thread : (t0 t1 : ℕ) → Event p (step t0 t1 p)
  requested :
      (r : Request) (local : PostboyState) (deadline : ℕ)
      → may r local ≡ true
      → Event p (record p { state = (round r (p.state, local)).0; sample_end = deadline })

-- 0 before the thread, 1 while it runs, 2 after it.
abbrev pub phase : PostboyState → ℕ
phase not_initialized = 0
phase initialized = 0
phase finished = 2
phase _ = 1

abbrev place_phase : Place → ℕ
place_phase absent = 0
place_phase done = 2
place_phase _ = 1

-- The thread's own copy of the state was read while it ran.
abbrev pub local_phase : Place → ℕ
local_phase (outer s) = phase s
local_phase (run_head s) = phase s
local_phase (sample_head s) = phase s
local_phase (leave_sampling s t) = phase s
local_phase (at_sample s) = phase s
local_phase (at_stop s) = phase s
local_phase (at_resume s) = phase s
local_phase (at_stopped s) = phase s
local_phase absent = 0
local_phase done = 2
local_phase _ = 1

-- The moves of the state machine.
pub data Edge (s t : PostboyState) : Type 0 where
  stay : t ≡ s → Edge s t
  inits : s ≡ not_initialized → t ≡ initialized → Edge s t
  starts : s ≡ initialized → t ≡ running → Edge s t
  asked : (r : Request) → may r s ≡ true → t ≡ target r → Edge s t
  samples : s ≡ sample_requested → t ≡ sampling → Edge s t
  sampled : s ≡ sampling → t ≡ running → Edge s t
  stops : s ≡ stop_requested → t ≡ stopped → Edge s t
  resumes : s ≡ resume_requested → t ≡ running → Edge s t
  finishes : phase s ≡ 1 → t ≡ finished → Edge s t

-- The processor has been called as often as counted, and is finalised and unlinked once, at the end.
abbrev expected_calls : Runner → List Call
expected_calls p =
    if phase p.state == 2
    then Call.unlink_queues ∷ Call.finalize ∷ replicate p.processed_calls Call.process
    else replicate p.processed_calls Call.process

pub record Life (p : Runner) : Type 0 where
  pub phases : place_phase p.place ≡ phase p.state
  pub bounded : p.processed_calls ≤ p.call_number
  pub local : phase p.state ≡ 1 → local_phase p.place ≡ 1
  pub called : p.calls ≡ expected_calls p

may-phase : (r : Request) (s : PostboyState) → may r s ≡ true → phase s ≡ 1
may-phase Request.stop s h = ground arith
may-phase Request.resume s h = ground arith
may-phase Request.finish s h = ground arith
may-phase Request.sample s h = ground arith

target-phase : (r : Request) → phase (target r) ≡ 1
target-phase Request.stop = refl
target-phase _ = refl

-- A step of a running thread keeps it running, or ends it.
module _ (t0 t1 : ℕ) (p : Runner) where
  step_at-Life : (here : Place) → p.place ≡ here → Life p → Life (step_at t0 t1 p here)
  unfolding step_at
  step_at-Life absent e v = v
  step_at-Life starting e v = ground arith
  step_at-Life (outer s) e v = ground arith
  step_at-Life (run_head s) e v = ground arith
  step_at-Life reload_run e v = ground arith
  step_at-Life (sample_head s) e v = ground arith
  step_at-Life (reload_sample t) e v = ground arith
  step_at-Life (leave_sampling s t) e v = ground arith
  step_at-Life (at_sample s) e v = ground arith
  step_at-Life (at_stop s) e v = ground arith
  step_at-Life (at_resume s) e v = ground arith
  step_at-Life (at_stopped s) e v = ground arith
  step_at-Life finishing e v = ground arith
  step_at-Life done e v = v

  exchanged :
      (local from desired : PostboyState)
      → ((s t : PostboyState) → s ≡ from → t ≡ desired → Edge s t)
      → local is from ≡ true
      → Edge p.state (cas p.state local desired).0
  exchanged local from desired edge h = elim (Bool-cases (p.state is local)) [
    | inl e ↦ rw e (edge p.state desired (is→eq p.state local e ∙ is→eq local from h) refl)
    | inr e ↦ rw e (stay refl)
  ]

  step_at-Edge :
      (here : Place) → p.place ≡ here → Life p → Edge p.state (step_at t0 t1 p here).state
  unfolding step_at
  step_at-Edge absent e v = stay refl
  step_at-Edge starting e v = stay refl
  step_at-Edge (outer s) e v = stay (ground arith)
  step_at-Edge (run_head s) e v = stay (ground arith)
  step_at-Edge reload_run e v = stay refl
  step_at-Edge (sample_head s) e v = stay (ground arith)
  step_at-Edge (reload_sample t) e v = stay refl
  step_at-Edge (leave_sampling s t) e v = elim (Bool-cases (s is sampling && ltb p.sample_end t)) [
    | inl h ↦ rw h (exchanged s sampling running (λ s t x y. sampled x y) (ground (arith, h)))
    | inr h ↦ rw h (stay refl)
  ]
  step_at-Edge (at_sample s) e v = elim (Bool-cases (s is sample_requested)) [
    | inl h ↦ rw h (exchanged s sample_requested sampling (λ s t x y. samples x y) h)
    | inr h ↦ rw h (stay refl)
  ]
  step_at-Edge (at_stop s) e v = elim (Bool-cases (s is stop_requested)) [
    | inl h ↦ rw h (exchanged s stop_requested stopped (λ s t x y. stops x y) h)
    | inr h ↦ rw h (stay refl)
  ]
  step_at-Edge (at_resume s) e v = elim (Bool-cases (s is resume_requested)) [
    | inl h ↦ rw h (exchanged s resume_requested running (λ s t x y. resumes x y) h)
    | inr h ↦ rw h (stay refl)
  ]
  step_at-Edge (at_stopped s) e v = stay (ground arith)
  step_at-Edge finishing e v = finishes (ground (arith, v.phases)) refl
  step_at-Edge done e v = stay refl

step-Life : (t0 t1 : ℕ) (p : Runner) → Life p → Life (step t0 t1 p)
unfolding step
step-Life t0 t1 p v = step_at-Life t0 t1 p p.place refl v

module _ {q : Runner} (p : Runner) where
  initialised : Life p → init p ≡ some q → Life q
  unfolding init
  initialised v h = ground arith

  initialised-Edge : init p ≡ some q → Edge p.state q.state
  unfolding init
  initialised-Edge h = elim (Bool-cases (p.state is not_initialized)) [
    | inl e ↦ inits (is→eq p.state not_initialized e) (ground arith)
    | inr e ↦ cc (rw e at h)
  ]

  started : Life p → run p ≡ some q → Life q
  unfolding run
  started v h = ground arith

  started-Edge : run p ≡ some q → Edge p.state q.state
  unfolding run
  started-Edge h = elim (Bool-cases (p.state is initialized)) [
    | inl e ↦ starts (is→eq p.state initialized e) (ground arith)
    | inr e ↦ cc (rw e at h)
  ]

Event-Life : {p q : Runner} → Event p q → Life p → Life q
Event-Life {p} (initialise h) v = initialised p v h
Event-Life {p} (start h) v = started p v h
Event-Life {p} (thread t0 t1) v = step-Life t0 t1 p v
Event-Life {p} (requested r local d h) v = elim (round_guarded r p.state local h) [
  | inl e ↦ ground (arith, e)
  | inr (m, e) ↦ ground (arith, e, may-phase r p.state m, target-phase r)
]

-- Where the invariant Life holds, every change of the shared state, by the thread, by its owner or by
-- a request, is an edge of the state machine.
pub Event-Edge : {p q : Runner} → Event p q → Life p → Edge p.state q.state
Event-Edge {p} (initialise h) v = initialised-Edge p h
Event-Edge {p} (start h) v = started-Edge p h
Event-Edge {p} (thread t0 t1) v = unfold step in step_at-Edge t0 t1 p p.place refl v
Event-Edge {p} (requested r local d h) v = elim (round_guarded r p.state local h) [
  | inl e ↦ stay e
  | inr (m, e) ↦ asked r m e
]

-- A postboy as constructed: no thread, no calls, nothing counted.
abbrev pub constructed : ℕ → Runner
constructed n = record {
  state = not_initialized;
  place = absent;
  processed_calls = 0;
  call_number = n;
  sample_durations = λ _. 0;
  sample_durations_index = 0;
  sample_end = 0;
  calls = [];
}

pub data Reach (n : ℕ) : Runner → Type 0 where
  here : Reach n (constructed n)
  next : {p q : Runner} → Reach n p → Event p q → Reach n q

-- In every reachable state the thread exists exactly between `Run` and the end, the processor has
-- been called as often as counted and at most `callNumber` times, and it has been finalised and
-- unlinked exactly once, after the last call, if and only if the state is Finished.
pub Reach-Life : (n : ℕ) {p : Runner} → Reach n p → Life p
Reach-Life n here = record {
  phases = refl;
  bounded = omega arith;
  local = λ h. omega arith;
  called = refl;
}
Reach-Life n (next r e) = Event-Life e (Reach-Life n r)

Edge-finished : {s t : PostboyState} → Edge s t → s ≡ finished → t ≡ finished
Edge-finished (stay e) f = e ∙ f
Edge-finished (inits e d) f = ground arith
Edge-finished (starts e d) f = ground arith
Edge-finished {s} (asked r m d) f = ground (arith, may-phase r s m)
Edge-finished (samples e d) f = ground arith
Edge-finished (sampled e d) f = ground arith
Edge-finished (stops e d) f = ground arith
Edge-finished (resumes e d) f = ground arith
Edge-finished (finishes e d) f = d

-- Where the invariant Life holds and the state is Finished, no event changes the state.
finished_forever : {p q : Runner} → Life p → p.state ≡ finished → Event p q → q.state ≡ finished
finished_forever v f e = Edge-finished (Event-Edge e v) f
