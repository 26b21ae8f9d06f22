-- ===== src/Postboy/State.antt =====
-- src/postboy/base/postboy.hpp: `PostboyState`; postboy.cpp: the Request* loops, `Init`, `Run`,
-- `Wait`.
use postboy.Prelude.{
  ℕ, zero, suc, ◌≡◌, refl, ap, sym, ◌∙◌, ◌⊎◌, inl, inr, Option, none, some, List, [], ◌∷◌, arith,
  get_or, ◌==◌, ==_iff, if◌then◌else◌, Bool, true, false, ◌||◌, Bool-cases,
}

pub data PostboyState : Type 0 where
  not_initialized initialized running stop_requested stopped : PostboyState
  resume_requested finish_requested finished sample_requested sampling : PostboyState

-- The `uint8_t` values of the enum.
abbrev pub code : PostboyState → ℕ
code not_initialized = 0
code initialized = 1
code running = 2
code stop_requested = 3
code stopped = 4
code resume_requested = 5
code finish_requested = 6
code finished = 7
code sample_requested = 8
code sampling = 9

infix 50 ◌is◌
abbrev pub ◌is◌ : PostboyState → PostboyState → Bool
a is b = code a == code b

-- `compare_exchange_strong` on shared `s`: the new shared value and the new `expected`.
abbrev pub cas : PostboyState → PostboyState → PostboyState → PostboyState × PostboyState
cas s expected desired = if s is expected then (desired, expected) else (s, s)

-- The four requests.
pub data Request : Type 0 where
  stop resume finish sample : Request

-- The condition of each request's `while`.
abbrev pub may : Request → PostboyState → Bool
may stop s = s is resume_requested || s is running
may resume s = s is stop_requested || s is stopped
may finish s = s is resume_requested || (s is running || (s is stop_requested || s is stopped))
may sample s = s is resume_requested || s is running

abbrev pub target : Request → PostboyState
target stop = stop_requested
target resume = resume_requested
target finish = finish_requested
target sample = sample_requested

-- One round of a request's loop: shared state and the local `state`.
unfoldable pub round : Request → PostboyState × PostboyState → PostboyState × PostboyState
round r (shared, local) = cas shared local (target r)

-- `RequestStop`, `RequestResume`, `RequestFinish`, `RequestSample`. Before each round the environment
-- may have replaced the shared state: `env` lists what it holds then. The result is the shared state
-- and the local one at the end; `none` means that `env` ran out before the loop ended.
unfoldable pub request_loop :
    Request → List PostboyState → PostboyState × PostboyState → Option (PostboyState × PostboyState)
request_loop r [] (shared, local) = if may r local then none else some (shared, local)
request_loop r (e ∷ env) (shared, local) =
    let rest = request_loop r env (round r (e, local)) in
    if may r local then rest else some (shared, local)

-- A request that nobody interferes with: no round sees any but its own write.
unfoldable pub quiet_loop :
    Request → ℕ → PostboyState × PostboyState → Option (PostboyState × PostboyState)
quiet_loop r zero (shared, local) = none
quiet_loop r (suc fuel) (shared, local) =
    let rest = quiet_loop r fuel (round r (shared, local)) in
    if may r local then rest else some (shared, local)

unfoldable pub request : Request → PostboyState → Option PostboyState
request r s = elim (quiet_loop r 3 (s, s)) [ none ↦ none | some (shared, local) ↦ some shared ]

-- Undisturbed, a request ends, moves the state to its target where its condition holds, and otherwise
-- returns with the state as it was.
pub request_lem :
    (r : Request) (s : PostboyState) → request r s ≡ some (if may r s then target r else s)
unfolding request quiet_loop round
request_lem stop s = ground arith
request_lem resume s = ground arith
request_lem finish s = ground arith
request_lem sample s = ground arith

-- `code` tells the states apart.
state_of : ℕ → PostboyState
state_of n =
    get_or
      (not_initialized ∷ initialized ∷ running ∷ stop_requested ∷ stopped ∷ resume_requested
        ∷ finish_requested ∷ finished ∷ sample_requested ∷ sampling ∷ [])
      n finished

state_of-code : (s : PostboyState) → state_of (code s) ≡ s
unfolding state_of
state_of-code not_initialized = refl
state_of-code _ = refl

pub is→eq : (a b : PostboyState) → a is b ≡ true → a ≡ b
is→eq a b h = sym (state_of-code a) ∙ ap state_of ((==_iff (code a) (code b)).0 h) ∙ state_of-code b

-- A round that a request begins in its condition changes the shared state only where the request's
-- condition holds of it, and then to the target.
pub round_guarded :
    (r : Request) (shared local : PostboyState)
    → may r local ≡ true
    → ((round r (shared, local)).0 ≡ shared)
      ⊎ ((may r shared ≡ true) × ((round r (shared, local)).0 ≡ target r))
unfolding round
round_guarded r shared local h = elim (Bool-cases (shared is local)) [
  | inl e ↦ inr (rw (is→eq shared local e) h, rw e)
  | inr e ↦ inl (rw e)
]

-- A request that returns has seen a state outside its condition last.
pub request_loop_ends :
    (r : Request) (env : List PostboyState) (shared local : PostboyState)
    {out : PostboyState × PostboyState}
    → request_loop r env (shared, local) ≡ some out
    → may r out.1 ≡ false
unfolding request_loop
request_loop_ends r [] shared local h = ground arith
request_loop_ends r (e ∷ env) shared local h = elim (Bool-cases (may r local)) [
  | inl m ↦ request_loop_ends r env _ _ (rw m at h)
  | inr m ↦ ground (arith, m)
]
