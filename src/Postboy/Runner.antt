-- ===== src/Postboy/Runner.antt =====
-- src/postboy/base/postboy.cpp: `Init`, `Run` and `RunImpl`, one access to the shared state a step.
use postboy.Prelude.{
  ℕ, zero, suc, ◌+◌, ◌-◌, ◌%◌, ◌^◌, Option, none, some, List, [], ◌∷◌, ltb, ◌==◌, if◌then◌else◌,
  Bool, true, false, not, ◌&&◌,
}
use postboy.Postboy.State.{
  PostboyState, not_initialized, initialized, running, stop_requested, stopped, resume_requested,
  finish_requested, finished, sample_requested, sampling, ◌is◌, cas,
}

abbrev pub sample_durations_size : ℕ
sample_durations_size = 4096

-- What the thread has asked of its processor.
pub data Call : Type 0 where
  process finalize unlink_queues : Call

-- Where the thread of a postboy stands, with its local `state`; `absent` before `Run`.
pub data Place : Type 0 where
  absent starting : Place
  outer : PostboyState → Place  -- the outer `while`
  run_head : PostboyState → Place  -- the `while` of Running
  reload_run : Place  -- after `Process`, before `State()`
  sample_head : PostboyState → Place  -- the `while` of Sampling
  reload_sample : ℕ → Place  -- after a timed `Process` that ended at this time
  leave_sampling : PostboyState → ℕ → Place  -- the `if` at the end of the Sampling loop
  at_sample at_stop at_resume at_stopped : PostboyState → Place  -- the four `if`s
  finishing done : Place

pub record Runner : Type 0 where
  pub state : PostboyState
  pub place : Place
  pub processed_calls : ℕ
  pub call_number : ℕ
  pub sample_durations : ℕ → ℕ
  pub sample_durations_index : ℕ
  pub sample_end : ℕ
  pub calls : List Call  -- newest first

-- `Init` (ASSERT) and `Run` (ENSURE); `none` is the failed check.
unfoldable pub init : Runner → Option Runner
init p = if p.state is not_initialized then some (record p { state = initialized }) else none

has_thread : Place → Bool
has_thread absent = false
has_thread _ = true

unfoldable pub run : Runner → Option Runner
unfolding has_thread
run p =
    if p.state is initialized && not (has_thread p.place)
    then some (record p { state = running; place = starting })
    else none

abbrev pub processed : Runner → Runner
processed p = record p { processed_calls = p.processed_calls + 1; calls = Call.process ∷ p.calls }

-- `sampleDurations_[index].store(end - start)`, and the index moves round.
abbrev pub record_duration : ℕ → ℕ → Runner → Runner
record_duration start end p = record p {
  sample_durations = λ i.
      if i == p.sample_durations_index
      then (end + 2 ^ 64 - start) % 2 ^ 64
      else p.sample_durations i;
  sample_durations_index = (p.sample_durations_index + 1) % sample_durations_size;
}

-- `state_.compare_exchange_strong(state, desired)`, and on to the next place with the local state.
abbrev pub exchange : Runner → PostboyState → PostboyState → (PostboyState → Place) → Runner
exchange p local desired next =
    let (shared, seen) = cas p.state local desired in record p { state = shared; place = next seen }

-- One step of the thread. `start` and `end` are the clock's readings around a timed `Process`.
unfoldable pub step_at : ℕ → ℕ → Runner → Place → Runner
step_at start end p absent = p
step_at start end p starting = record p { place = outer p.state }
step_at start end p (outer s) =
    if ltb p.processed_calls p.call_number && not (s is finish_requested)
    then record p { place = run_head s }
    else record p { place = finishing }
step_at start end p (run_head s) =
    if s is running && ltb p.processed_calls p.call_number
    then record (processed p) { place = reload_run }
    else record p { place = sample_head s }
step_at start end p reload_run = record p { place = run_head p.state }
step_at start end p (sample_head s) =
    if s is sampling && ltb p.processed_calls p.call_number
    then record (record_duration start end (processed p)) { place = reload_sample end }
    else record p { place = at_sample s }
step_at start end p (reload_sample ended) = record p { place = leave_sampling p.state ended }
step_at start end p (leave_sampling s ended) =
    if s is sampling && ltb p.sample_end ended
    then exchange p s running sample_head
    else record p { place = sample_head s }
step_at start end p (at_sample s) =
    if s is sample_requested then exchange p s sampling at_stop else record p { place = at_stop s }
step_at start end p (at_stop s) =
    if s is stop_requested then exchange p s stopped at_resume else record p { place = at_resume s }
step_at start end p (at_resume s) =
    if s is resume_requested
    then exchange p s running at_stopped
    else record p { place = at_stopped s }
-- `wait` returns once the state differs; the load behind it reads what is there then.
step_at start end p (at_stopped s) =
    if s is stopped
    then (if p.state is stopped then p else record p { place = outer p.state })
    else record p { place = outer s }
step_at start end p finishing = record p {
  state = finished;
  place = done;
  calls = Call.unlink_queues ∷ Call.finalize ∷ p.calls;
}
step_at start end p done = p

unfoldable pub step : ℕ → ℕ → Runner → Runner
unfolding step_at
step start end p = step_at start end p p.place

-- The thread runs alone for a number of steps.
unfoldable pub run_alone : ℕ → Runner → Runner
run_alone zero p = p
run_alone (suc n) p = run_alone n (step 0 0 p)

-- `Wait`: the states that its loop reads until one differs from `currentState`.
unfoldable pub wait_until_changed : List PostboyState → PostboyState → Option PostboyState
wait_until_changed [] current = none
wait_until_changed (s ∷ reads) current =
    let later = wait_until_changed reads current in if s is current then later else some s

latencies_from : (ℕ → ℕ) → ℕ → ℕ → List ℕ
latencies_from durations i zero = []
latencies_from durations i (suc n) =
    let later = latencies_from durations (i + 1) n in
    if durations i == 0 then later else durations i ∷ later

unfoldable pub get_latencies : Runner → List ℕ
unfolding latencies_from
get_latencies p = latencies_from p.sample_durations 0 sample_durations_size
