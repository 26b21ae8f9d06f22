-- ===== src/Postboy/Tests.antt =====
-- The postboy's theorems at a postboy of three calls.
use postboy.Prelude.{ℕ, zero, suc, ◌+◌, ◌*◌, ◌≤◌, ◌≡◌, refl, some, ◌∷◌, replicate, arith}
use postboy.Postboy.State.{PostboyState, running, finish_requested, finished, Request, round}
use postboy.Postboy.Runner.{Runner, Place, Call, init, run, step, run_alone}
use postboy.Postboy.Lifecycle.{Event, Edge, Life, Reach, constructed, Reach-Life, Event-Edge}
use postboy.Postboy.Finish.{Schedule, finish_in_bound}
use postboy.Postboy.Completion.{completes}

abbrev made : Runner
made = constructed 3

abbrev ready : Runner
ready = record made { state = PostboyState.initialized }

abbrev launched : Runner
launched = record ready { state = running; place = Place.starting }

-- Two steps into its loop the postboy is asked to finish.
abbrev at_work : Runner
at_work = step 0 0 (step 0 0 launched)

abbrev asked_to_finish : Runner
asked_to_finish = record at_work {
  state = (round Request.finish (at_work.state, running)).0;
  sample_end = 0;
}

ready_reached : Reach 3 ready
unfolding init
ready_reached = Reach.next Reach.here (Event.initialise refl)

launched_reached : Reach 3 launched
unfolding run
launched_reached = Reach.next ready_reached (Event.start refl)

asked_reached : Reach 3 asked_to_finish
asked_reached =
    Reach.next (Reach.next (Reach.next launched_reached (Event.thread 0 0)) (Event.thread 0 0))
      (Event.requested Request.finish running 0 refl)

undisturbed : (n : ℕ) (p : Runner) → Schedule n p (run_alone n p)
unfolding run_alone
undisturbed zero p = Schedule.over
undisturbed (suc n) p = Schedule.thread 0 0 (undisturbed n (step 0 0 p))

is_asked : asked_to_finish.state ≡ finish_requested
unfolding round step
is_asked = refl

Reach-Life_example : Life asked_to_finish
Reach-Life_example = Reach-Life 3 asked_reached

Event-Edge_example : Edge ready.state launched.state
unfolding run
Event-Edge_example =
    Event-Edge {p = ready} {q = launched} (Event.start refl) (Reach-Life 3 ready_reached)

finish_in_bound_example :
    let q = run_alone 18 asked_to_finish in
    (q.state ≡ finished) × (q.processed_calls ≤ asked_to_finish.processed_calls + 1)
finish_in_bound_example =
    finish_in_bound asked_reached is_asked (omega arith) (undisturbed 18 asked_to_finish)

abbrev ended : Runner
ended = run_alone 18 asked_to_finish

run_reached : (n m : ℕ) (p : Runner) → Reach m p → Reach m (run_alone n p)
unfolding run_alone
run_reached zero m p r = r
run_reached (suc n) m p r = run_reached n m (step 0 0 p) (Reach.next r (Event.thread 0 0))

has_ended : ended.state ≡ finished
has_ended =
    (finish_in_bound asked_reached is_asked (omega arith) (undisturbed 18 asked_to_finish)).0

completes_example :
    (p q : Runner) × (init (constructed 3) ≡ some p)
    × (run p ≡ some q)
    × (let r = run_alone (2 * 3 + 10) q in
        (r.state ≡ finished)
        × (r.calls ≡ Call.unlink_queues ∷ Call.finalize ∷ replicate 3 Call.process))
completes_example = completes 3
