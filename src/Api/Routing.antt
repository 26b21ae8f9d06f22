-- ===== src/Api/Routing.antt =====
-- What a call of the interface does to the postboy in its path, and to the others.
use postboy.Prelude.{
  ℕ, ◌≡◌, ◌≢◌, refl, ap, sym, ◌∙◌, ◌⊎◌, inl, inr, Option, none, some, List, [], ◌∷◌, arith,
  if◌then◌else◌, true, false, Bool-cases, Option-cases, Bytes, bytes_eq, bytes_eq→eq,
}
use postboy.Postboy.State.{
  PostboyState, not_initialized, initialized, running, stop_requested, stopped, resume_requested,
  finish_requested, sample_requested, ◌is◌, is→eq, Request, may, target, request, request_lem,
}
use postboy.Postboy.Runner.{Runner, run}
use postboy.Graph.Queues.{ensure_failed}
use postboy.Graph.Binding.{BindingConfig}
use postboy.Graph.Runtime.{Factory, PostboyConfig}
use postboy.Api.Handlers.{
  Named, ApiCall, find_runner, replace_runner, get_config, get_postboy_config, get_postboy_state,
  get_postboy_latencies, post_postboy_run, post_postboy_request_stop, post_postboy_request_resume,
  post_postboy_request_finish, post_postboy_request_sample, Answer, answered, threw, nothing,
  post_postboy, post_binding, not_found, requested, sample_requested_by, launched, launched_if,
  with_postboy, path_postboy, Program, handle, on_postboy,
}

find_runner-replace :
    (name : Bytes) (q : Runner) (ns : List Named) {p : Runner}
    → find_runner name ns ≡ some p
    → find_runner name (replace_runner name q ns) ≡ some q
unfolding find_runner
find_runner-replace name q [] h = cc h
find_runner-replace name q (n ∷ ns) h = elim (Bool-cases (bytes_eq n.name name)) [
  | inl e ↦ rw (e, e) refl
  | inr e ↦ rw (e, e) (find_runner-replace name q ns (rw e at h))
]

bytes_eq-apart : (a b c : Bytes) → bytes_eq a b ≡ true → b ≢ c → bytes_eq a c ≡ false
bytes_eq-apart a b c h ne = elim (Bool-cases (bytes_eq a c)) [
  | inr e ↦ e
  | inl e ↦ absurd (ne (sym (bytes_eq→eq a b h) ∙ bytes_eq→eq a c e))
]

find_runner-elsewhere :
    (name other : Bytes) (q : Runner) (ns : List Named)
    → name ≢ other
    → find_runner other (replace_runner name q ns) ≡ find_runner other ns
unfolding find_runner
find_runner-elsewhere name other q [] ne = refl
find_runner-elsewhere name other q (n ∷ ns) ne = elim (Bool-cases (bytes_eq n.name name)) [
  | inl e ↦ let apart = bytes_eq-apart n.name name other e ne in rw (e, apart) refl
  | inr e ↦ rw e (
      ap (λ o. if bytes_eq n.name other then some n.runner else o)
        (find_runner-elsewhere name other q ns ne))
]

-- The state that each request leaves, by the state it finds.
abbrev pub after_stop : PostboyState → PostboyState
after_stop running = stop_requested
after_stop resume_requested = stop_requested
after_stop s = s

abbrev pub after_resume : PostboyState → PostboyState
after_resume stop_requested = resume_requested
after_resume stopped = resume_requested
after_resume s = s

abbrev pub after_finish : PostboyState → PostboyState
after_finish running = finish_requested
after_finish resume_requested = finish_requested
after_finish stop_requested = finish_requested
after_finish stopped = finish_requested
after_finish s = s

abbrev pub after_sample : PostboyState → PostboyState
after_sample running = sample_requested
after_sample resume_requested = sample_requested
after_sample s = s

-- What a call may do to the postboy in its path.
abbrev pub Does : ApiCall → PostboyState → PostboyState → Answer → Type 0
Does (post_postboy_run name) s t a =
    (s ≡ initialized → (t ≡ running) ⊎ ((t ≡ s) × (a ≡ threw ensure_failed)))
    × (s ≢ initialized → (t ≡ s) × (a ≡ answered (some 400) nothing))
Does (post_postboy_request_stop name) s t a = t ≡ after_stop s
Does (post_postboy_request_resume name) s t a = t ≡ after_resume s
Does (post_postboy_request_finish name) s t a = t ≡ after_finish s
Does (post_postboy_request_sample name deadline) s t a = t ≡ after_sample s
Does _ s t a = t ≡ s

stop_lem :
    (s : PostboyState) → (if may Request.stop s then target Request.stop else s) ≡ after_stop s
stop_lem not_initialized = refl
stop_lem _ = refl

resume_lem :
    (s : PostboyState)
    → (if may Request.resume s then target Request.resume else s) ≡ after_resume s
resume_lem not_initialized = refl
resume_lem _ = refl

finish_lem :
    (s : PostboyState)
    → (if may Request.finish s then target Request.finish else s) ≡ after_finish s
finish_lem not_initialized = refl
finish_lem _ = refl

sample_lem :
    (s : PostboyState)
    → (if may Request.sample s then target Request.sample else s) ≡ after_sample s
sample_lem not_initialized = refl
sample_lem _ = refl

requested_lem :
    (r : Request) (p : Runner)
    → (requested p (request r p.state)).state ≡ (if may r p.state then target r else p.state)
requested_lem r p = ap (λ o. (requested p o).state) (request_lem r p.state)

sample_requested_by_lem :
    (deadline : ℕ) (p : Runner)
    → (sample_requested_by deadline p (request Request.sample p.state)).state
      ≡ (if may Request.sample p.state then target Request.sample else p.state)
sample_requested_by_lem deadline p =
    ap (λ o. (sample_requested_by deadline p o).state) (request_lem Request.sample p.state)

run-running : (p q : Runner) → run p ≡ some q → q.state ≡ running
unfolding run
run-running p q h = ground (arith, h)

launched-Does :
    (p : Runner)
    → ((launched p (run p)).0.state ≡ running)
      ⊎ (((launched p (run p)).0.state ≡ p.state) × ((launched p (run p)).1 ≡ threw ensure_failed))
launched-Does p = elim (Option-cases (run p)) [
  | inl e ↦ rw e (inr (refl, refl))
  | inr (q, e) ↦ rw e (inl (run-running p q e))
]

initialized_lem : (s : PostboyState) → s ≡ initialized → s is initialized ≡ true
initialized_lem s e = rw e refl

launched_if-Does :
    (name : Bytes) (p : Runner)
    → let q = launched_if (p.state is initialized) p (run p) in
      Does (post_postboy_run name) p.state q.0.state q.1
launched_if-Does name p = elim (Bool-cases (p.state is initialized)) [
  | inl e ↦ rw e ((λ h. launched-Does p), λ ne. absurd (ne (is→eq p.state initialized e)))
  | inr e ↦ rw e ((λ h. absurd (cc (initialized_lem p.state h, e))), λ ne. (refl, refl))
]

with_postboy-Does :
    (c : ApiCall) (p : Runner) → Does c p.state (with_postboy c p).0.state (with_postboy c p).1
unfolding with_postboy
with_postboy-Does (post_postboy_run name) p = launched_if-Does name p
with_postboy-Does (post_postboy_request_stop name) p =
    requested_lem Request.stop p ∙ stop_lem p.state
with_postboy-Does (post_postboy_request_resume name) p =
    requested_lem Request.resume p ∙ resume_lem p.state
with_postboy-Does (post_postboy_request_finish name) p =
    requested_lem Request.finish p ∙ finish_lem p.state
with_postboy-Does (post_postboy_request_sample name deadline) p =
    sample_requested_by_lem deadline p ∙ sample_lem p.state
with_postboy-Does get_config p = refl
with_postboy-Does (get_postboy_config name) p = refl
with_postboy-Does (get_postboy_state name) p = refl
with_postboy-Does (get_postboy_latencies name) p = refl
with_postboy-Does (post_postboy body) p = refl
with_postboy-Does (post_binding body) p = refl

module _ (f : Factory) (call_number : Factory.Process f → ℕ)
    (read_postboy : Bytes → PostboyConfig f ⊎ Bytes)
    (read_binding : Bytes → Option BindingConfig) where
  -- A call with a postboy in its path is the work on that postboy.
  handle-on_postboy :
      (g : Program f) (c : ApiCall) (name : Bytes)
      → path_postboy c ≡ some name
      → handle f call_number read_postboy read_binding g c
        ≡ on_postboy f g c name (find_runner name g.postboys)
  unfolding handle
  handle-on_postboy g get_config name h = absurd (cc h)
  handle-on_postboy g (post_postboy body) name h = absurd (cc h)
  handle-on_postboy g (post_binding body) name h = absurd (cc h)
  handle-on_postboy g (get_postboy_config n) name h = let e : n ≡ name = cc h in rw e refl
  handle-on_postboy g (get_postboy_state n) name h = let e : n ≡ name = cc h in rw e refl
  handle-on_postboy g (get_postboy_latencies n) name h = let e : n ≡ name = cc h in rw e refl
  handle-on_postboy g (post_postboy_run n) name h = let e : n ≡ name = cc h in rw e refl
  handle-on_postboy g (post_postboy_request_stop n) name h = let e : n ≡ name = cc h in rw e refl
  handle-on_postboy g (post_postboy_request_resume n) name h = let e : n ≡ name = cc h in rw e refl
  handle-on_postboy g (post_postboy_request_finish n) name h = let e : n ≡ name = cc h in rw e refl
  handle-on_postboy g (post_postboy_request_sample n deadline) name h =
      let e : n ≡ name = cc h in rw e refl

  -- Where no postboy has the name in a call's path, the answer is 404 and nothing changes.
  handle_unknown :
      (g : Program f) (c : ApiCall) (name : Bytes)
      → path_postboy c ≡ some name
      → find_runner name g.postboys ≡ none
      → handle f call_number read_postboy read_binding g c ≡ (g, not_found)
  unfolding on_postboy
  handle_unknown g c name path unknown =
      handle-on_postboy g c name path ∙ ap (on_postboy f g c name) unknown

  -- Where a postboy has the name in a call's path: a run starts it when it is Initialized, or throws and leaves
  -- it, and otherwise answers 400 and leaves it; a request to stop or to sample takes it from Running or
  -- ResumeRequested to StopRequested or SampleRequested, one to resume from StopRequested or Stopped to
  -- ResumeRequested, and one to finish from any of these four to FinishRequested, each leaving every other state
  -- as it is; every other call leaves its state. No call changes another postboy or the graph.
  pub handle-Does :
      (g : Program f) (c : ApiCall) (name : Bytes) (p : Runner)
      → path_postboy c ≡ some name
      → find_runner name g.postboys ≡ some p
      → let h = (handle f call_number read_postboy read_binding g c).0 in
        ((q : Runner) × (find_runner name h.postboys ≡ some q)
          × Does c p.state q.state (handle f call_number read_postboy read_binding g c).1)
        × ((other : Bytes)
            → name ≢ other
            → find_runner other h.postboys ≡ find_runner other g.postboys)
        × (h.runtime ≡ g.runtime)
  unfolding on_postboy
  handle-Does g c name p path known =
      let done = handle-on_postboy g c name path ∙ ap (on_postboy f g c name) known in
      let q = (with_postboy c p).0 in
      rw done (
        (q, find_runner-replace name q g.postboys known, with_postboy-Does c p),
        (λ other ne. find_runner-elsewhere name other q g.postboys ne),
        refl,
      )
