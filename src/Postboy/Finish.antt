-- ===== src/Postboy/Finish.antt =====
-- A finish request that took effect ends the postboy, whatever else is requested meanwhile.
use postboy.Prelude.{
  ℕ, suc, ◌+◌, ◌≤◌, ◌≡◌, refl, subst, ◌⊎◌, inl, inr, arith, ltb, if◌then◌else◌, Bool, true, not,
  ◌&&◌, ◌||◌,
}
use postboy.Postboy.State.{
  PostboyState, running, stop_requested, stopped, finish_requested, finished, sample_requested,
  sampling, ◌is◌, Request, may, round, round_guarded,
}
use postboy.Postboy.Runner.{Runner, Place, step, step_at}
use postboy.Postboy.Runner.{
  absent, starting, outer, run_head, reload_run, sample_head, reload_sample, leave_sampling,
  at_sample, at_stop, at_resume, at_stopped, finishing, done,
}
use postboy.Postboy.Lifecycle.{local_phase, Reach, Reach-Life}

abbrev working : PostboyState → Bool
working s = s is running || s is sampling

-- Steps that are left to the thread, by whether calls are left to make.
abbrev rank : Bool → Place → ℕ
rank busy absent = 0
rank busy starting = 3
rank busy (outer s) = if s is finish_requested || not busy then 2 else 12
rank busy (run_head s) = if busy && working s then 11 else 8
rank busy reload_run = 9
rank busy (sample_head s) = if busy && working s then (if s is sampling then 10 else 17) else 7
rank busy (reload_sample t) = 9
rank busy (leave_sampling s t) = if busy && working s then 18 else 8
rank busy (at_sample s) = if busy && working s then 16 else 6
rank busy (at_stop s) = if busy && (working s || s is sample_requested) then 15 else 5
rank busy (at_resume s) =
    if busy && (working s || (s is sample_requested || s is stop_requested)) then 14 else 4
rank busy (at_stopped s) = if s is stopped || (s is finish_requested || not busy) then 3 else 13
rank busy finishing = 1
rank busy done = 0

-- Calls of `Process` that may still come.
abbrev spare_at : PostboyState → ℕ
spare_at s = if s is finish_requested then 0 else 1

abbrev spare : Place → ℕ
spare (outer s) = spare_at s
spare (run_head s) = spare_at s
spare (sample_head s) = spare_at s
spare (leave_sampling s t) = spare_at s
spare (at_sample s) = spare_at s
spare (at_stop s) = spare_at s
spare (at_resume s) = spare_at s
spare (at_stopped s) = spare_at s
spare _ = 0

abbrev busy : Runner → Bool
busy p = ltb p.processed_calls p.call_number

-- A thread on its way out: the finish request stands, or has been obeyed.
record Leaving (p : Runner) (left calls : ℕ) : Type 0 where
  state :
      ((p.state ≡ finish_requested) × (local_phase p.place ≡ 1))
      ⊎ ((p.state ≡ finished) × (p.place ≡ done))
  steps : rank (busy p) p.place ≤ left
  budget : p.processed_calls + spare p.place ≤ calls

module _ (t0 t1 left calls : ℕ) (p : Runner) where
  step_at-Leaving :
      (here : Place)
      → p.place ≡ here
      → Leaving p (suc left) calls
      → Leaving (step_at t0 t1 p here) left calls
  unfolding step_at
  step_at-Leaving absent e v = ground arith
  step_at-Leaving starting e v = ground arith
  step_at-Leaving (outer s) e v = ground arith
  step_at-Leaving (run_head s) e v = ground arith
  step_at-Leaving reload_run e v = ground arith
  step_at-Leaving (sample_head s) e v = ground arith
  step_at-Leaving (reload_sample t) e v = ground arith
  step_at-Leaving (leave_sampling s t) e v = ground arith
  step_at-Leaving (at_sample s) e v = ground arith
  step_at-Leaving (at_stop s) e v = ground arith
  step_at-Leaving (at_resume s) e v = ground arith
  step_at-Leaving (at_stopped s) e v = ground arith
  step_at-Leaving finishing e v = ground arith
  step_at-Leaving done e v = ground arith

not_may_finish : (r : Request) → may r finish_requested ≡ true → ⊥
not_may_finish Request.stop h = cc h
not_may_finish _ h = cc h

not_may_finished : (r : Request) → may r finished ≡ true → ⊥
not_may_finished Request.stop h = cc h
not_may_finished _ h = cc h

leaves : (b : Bool) (here : Place) → local_phase here ≡ 1 → rank b here ≤ 0 → ⊥
leaves b starting l h = omega arith
leaves b _ l h = ground arith

-- Requests never take a finish request back, and never revive a finished postboy.
requested-Leaving :
    (r : Request) (local : PostboyState) (deadline left calls : ℕ) (p : Runner)
    → may r local ≡ true
    → Leaving p left calls
    → Leaving (record p { state = (round r (p.state, local)).0; sample_end = deadline }) left calls
requested-Leaving r local d left calls p h v = elim (round_guarded r p.state local h) [
  | inl e ↦ record { state = rw e v.state; steps = v.steps; budget = v.budget }
  | inr (m, e) ↦ absurd (refused v.state m)
]
  where
    refused :
        ((p.state ≡ finish_requested) × (local_phase p.place ≡ 1))
          ⊎ ((p.state ≡ finished) × (p.place ≡ done))
        → may r p.state ≡ true
        → ⊥
    refused (inl (e, l)) m = not_may_finish r (subst (λ s. may r s ≡ true) e m)
    refused (inr (e, f)) m = not_may_finished r (subst (λ s. may r s ≡ true) e m)

-- A schedule: the thread makes this many steps, and requests come between them as they like.
pub data Schedule : ℕ → Runner → Runner → Type 0 where
  over : {p : Runner} → Schedule 0 p p
  thread : {n : ℕ} {p q : Runner} (t0 t1 : ℕ) → Schedule n (step t0 t1 p) q → Schedule (suc n) p q
  requested :
      {n : ℕ} {p q : Runner} (r : Request) (local : PostboyState) (deadline : ℕ)
      → may r local ≡ true
      → Schedule n (record p { state = (round r (p.state, local)).0; sample_end = deadline }) q
      → Schedule n p q

Schedule-Leaving :
    {n : ℕ} {p q : Runner} (left calls : ℕ)
    → Schedule n p q
    → Leaving p (n + left) calls
    → Leaving q left calls
Schedule-Leaving {p = p} left calls over v = subst (λ k. Leaving p k calls) (omega arith) v
Schedule-Leaving {p = p} left calls (thread {n = n} t0 t1 s) v = Schedule-Leaving left calls s (
    unfold step in
    step_at-Leaving t0 t1 (n + left) calls p p.place refl
      (subst (λ k. Leaving p k calls) (omega arith) v))
Schedule-Leaving {n = n} {p = p} left calls (requested r local d h s) v =
    Schedule-Leaving left calls s (requested-Leaving r local d (n + left) calls p h v)

rank_bound : (b : Bool) (here : Place) → rank b here ≤ 18
rank_bound b starting = omega arith
rank_bound b _ = ground arith

spare_bound : (here : Place) → spare here ≤ 1
spare_bound starting = omega arith
spare_bound _ = ground arith

Leaving-done : {p : Runner} {calls : ℕ} → Leaving p 0 calls → p.state ≡ finished
Leaving-done {p} v = elim v.state [
  | inl e ↦ absurd (leaves (busy p) p.place e.1 v.steps)
  | inr e ↦ e.0
]

-- Once a finish request stands in a reachable state, eighteen steps of the thread finish the postboy
-- after at most one more call of `Process`, whatever requests come in between and whatever the clock
-- reads.
pub finish_in_bound :
    {n m : ℕ} {p q : Runner}
    → Reach m p
    → p.state ≡ finish_requested
    → 18 ≤ n
    → Schedule n p q
    → (q.state ≡ finished) × (q.processed_calls ≤ p.processed_calls + 1)
finish_in_bound {n} {m} {p} {q} r e h s = (Leaving-done out, omega (arith, out.budget))
  where
    out : Leaving q 0 (p.processed_calls + 1)
    out = Schedule-Leaving 0 (p.processed_calls + 1) s (record {
      state = inl (e, (Reach-Life m r).local (rw e));
      steps = omega (arith, rank_bound (busy p) p.place);
      budget = omega (arith, spare_bound p.place);
    })
