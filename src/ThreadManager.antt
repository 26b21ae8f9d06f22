-- ===== src/ThreadManager.antt =====
-- src/thread_manager/thread_manager.cpp: how each postboy's thread is to be pinned and scheduled.
-- An integer of 64 or 32 bits is its bit pattern. What the system calls answer is a parameter.
pub mod LastEntry
mod Tests
use postboy.Prelude.{
  ℕ, ◌+◌, ◌%◌, ◌^◌, Option, none, some, List, [], ◌∷◌, ◌++◌, map, ◌==◌, if◌then◌else◌, Bytes,
  bytes_eq, c_string,
}
use postboy.Graph.Queues.{Failure, ensure_failed}

pub record ThreadModel : Type 0 where
  pub core_list : Option (List ℕ)
  pub priority : Option ℕ
  pub nice : Option ℕ

-- The configuration of a thread.
pub record Thread : Type 0 where
  pub postboy_name : Bytes
  pub core_numbers : List ℕ
  pub priority_value : Option ℕ
  pub nice_value : Option ℕ

-- `serviceToThreadModel_`; a name stands in it once.
abbrev pub Models : Type 0
Models = List (Bytes × ThreadModel)

-- From `int64` to `int`.
abbrev pub to_int : ℕ → ℕ
to_int n = n % 2 ^ 32

abbrev pub int_of : Option ℕ → Option ℕ
int_of none = none
int_of (some n) = some (to_int n)

abbrev pub cores_of : List ℕ → Option (List ℕ)
cores_of [] = none
cores_of (c ∷ cs) = some (map to_int (c ∷ cs))

abbrev pub thread_model : Thread → ThreadModel
thread_model c = record {
  core_list = cores_of c.core_numbers;
  priority = int_of c.priority_value;
  nice = int_of c.nice_value;
}

-- `serviceToThreadModel_[name] = ...`
abbrev pub assign_model : Bytes → ThreadModel → Models → Models
assign_model name t [] = (name, t) ∷ []
assign_model name t (m ∷ ms) =
    let later = assign_model name t ms in if bytes_eq m.0 name then (m.0, t) ∷ ms else m ∷ later

abbrev pub parse_config_thread : Thread → Models → Models
parse_config_thread c models = assign_model c.postboy_name (thread_model c) models

-- The constructor's loop.
unfoldable pub parse_all : List Thread → Models → Models
parse_all [] models = models
parse_all (c ∷ cs) models = parse_all cs (parse_config_thread c models)

abbrev pub model_at : Bytes → Models → Option ThreadModel
model_at name [] = none
model_at name (m ∷ ms) =
    let later = model_at name ms in if bytes_eq m.0 name then some m.1 else later

-- The name is looked up as a C string.
unfoldable pub get_model : Bytes → Models → Option ThreadModel
get_model name models = model_at (c_string name) models

pub data SystemCall : Type 0 where
  set_affinity_call : List ℕ → SystemCall
  set_nice_call : ℕ → SystemCall
  set_priority_call : ℕ → SystemCall

-- What a thread asked of the system, and the exception that ended it.
pub record Configured : Type 0 where
  pub calls : List SystemCall
  pub failure : Option Failure

-- Each system call gives its error, where 0 is none.
module _ (system : SystemCall → ℕ) where
  abbrev pub checked : SystemCall → Configured
  checked c = record {
    calls = c ∷ [];
    failure = if system c == 0 then none else some ensure_failed;
  }

  abbrev pub set_affinity : List ℕ → Configured
  set_affinity [] = record { calls = []; failure = none }
  set_affinity (c ∷ cs) = checked (set_affinity_call (c ∷ cs))

  abbrev pub set_nice : ℕ → Configured
  set_nice n = checked (set_nice_call n)

  -- Nothing calls it.
  abbrev pub set_priority : ℕ → Configured
  set_priority p = checked (set_priority_call p)

  abbrev pub pinned : Option (List ℕ) → Configured
  pinned none = record { calls = []; failure = none }
  pinned (some cores) = set_affinity cores

  abbrev pub reniced : Option ℕ → Configured
  reniced none = record { calls = []; failure = none }
  reniced (some n) = set_nice n

  abbrev pub and_after : Configured → Configured → Configured
  and_after first second = elim first.failure [
    | none ↦ record { calls = first.calls ++ second.calls; failure = second.failure }
    | some e ↦ record { calls = first.calls; failure = some e }
  ]

  abbrev pub configure_by : Option ThreadModel → Configured
  configure_by none = record { calls = []; failure = none }
  configure_by (some t) = and_after (pinned t.core_list) (reniced t.nice)

  unfoldable pub configure : Bytes → Models → Configured
  unfolding get_model
  configure name models = configure_by (get_model name models)
