-- ===== src/ThreadManager/LastEntry.antt =====
-- The last entry for a name counts.
use postboy.Prelude.{
  ℕ, ◌≡◌, refl, ap, sym, subst, ◌∙◌, inl, inr, Option, none, some, List, [], ◌∷◌, if◌then◌else◌,
  Bool, true, false, Bool-cases, Bytes, c_string, map, ◌++◌, ◌==◌, bytes_eq, bytes_eq→eq,
  bytes_eq_refl,
}
use postboy.Graph.Queues.{ensure_failed}
use postboy.ThreadManager.{
  ThreadModel, Thread, Models, thread_model, parse_config_thread, parse_all, model_at, get_model,
  SystemCall, set_affinity_call, set_nice_call, to_int, cores_of, int_of, pinned, reniced,
  and_after, Configured, configure_by, configure,
}

-- The last entry of the configuration for a name.
unfoldable pub last_entry : Bytes → List Thread → Option Thread → Option Thread
last_entry name [] found = found
last_entry name (c ∷ cs) found =
    last_entry name cs (if bytes_eq c.postboy_name name then some c else found)

abbrev pub model_of : Option Thread → Option ThreadModel
model_of none = none
model_of (some c) = some (thread_model c)

same_branches :
    {A : Type 0} (b : Bool) (x y z : A)
    → (if b then x else z) ≡ (if b then x else if b then y else z)
same_branches true x y z = refl
same_branches false x y z = refl

entry_apart : (a b c : Bytes) → bytes_eq a b ≡ false → bytes_eq a c ≡ true → bytes_eq b c ≡ false
entry_apart a b c ne e = elim (Bool-cases (bytes_eq b c)) [
  | inr h ↦ h
  | inl h ↦
      let same : a ≡ b = bytes_eq→eq a c e ∙ sym (bytes_eq→eq b c h) in
      let equal : bytes_eq a b ≡ true = subst (λ t. bytes_eq a t ≡ true) same (bytes_eq_refl a) in
      absurd (cc (equal, ne))
]

model_at-assign :
    (c : Thread) (name : Bytes) (ms : Models)
    → model_at name (parse_config_thread c ms)
      ≡ (if bytes_eq c.postboy_name name then some (thread_model c) else model_at name ms)
model_at-assign c name [] = refl
model_at-assign c name (m ∷ ms) = elim (Bool-cases (bytes_eq m.0 c.postboy_name)) [
  | inl e ↦
      let same : m.0 ≡ c.postboy_name = bytes_eq→eq m.0 c.postboy_name e in
      rw (e, same)
        (same_branches (bytes_eq c.postboy_name name) (some (thread_model c)) (some m.1)
          (model_at name ms))
  | inr e ↦
      rw (e, model_at-assign c name ms)
        (elim (Bool-cases (bytes_eq m.0 name)) [
          | inr here ↦ rw here refl
          | inl here ↦
              let apart : bytes_eq c.postboy_name name ≡ false =
                entry_apart m.0 c.postboy_name name e here in
              rw (here, apart) refl
        ])
]

parsed :
    (cs : List Thread) (name : Bytes) (ms : Models) (found : Option Thread)
    → model_at name ms ≡ model_of found
    → model_at name (parse_all cs ms) ≡ model_of (last_entry name cs found)
unfolding parse_all last_entry
parsed [] name ms found h = h
parsed (c ∷ cs) name ms found h =
    let here = model_at-assign c name ms in
    parsed cs name (parse_config_thread c ms)
      (if bytes_eq c.postboy_name name then some c else found)
      (here
        ∙ elim (Bool-cases (bytes_eq c.postboy_name name)) [ inl e ↦ rw e refl | inr e ↦ rw e h ])

-- What the configuration asks of the system for a thread: the cores when it has some, and then the nice value
-- when it has one, in 32 bits.
abbrev pub core_calls : List ℕ → List SystemCall
core_calls [] = []
core_calls (c ∷ cs) = set_affinity_call (map to_int (c ∷ cs)) ∷ []

abbrev pub nice_calls : Option ℕ → List SystemCall
nice_calls none = []
nice_calls (some n) = set_nice_call (to_int n) ∷ []

unfoldable pub asked : Option Thread → List SystemCall
asked none = []
asked (some c) = core_calls c.core_numbers ++ nice_calls c.nice_value

module _ (system : SystemCall → ℕ) where
  -- Calls made one by one, up to the first that gives an error.
  abbrev pub with_call : SystemCall → Configured → Configured
  with_call call rest = record { calls = call ∷ rest.calls; failure = rest.failure }

  unfoldable pub until_failure : List SystemCall → Configured
  until_failure [] = record { calls = []; failure = none }
  until_failure (call ∷ more) =
      let rest = until_failure more in
      if system call == 0
      then with_call call rest
      else record { calls = call ∷ []; failure = some ensure_failed }

  configured-until_failure :
      (cores : List ℕ) (nice : Option ℕ)
      → and_after system (pinned system (cores_of cores)) (reniced system (int_of nice))
        ≡ until_failure (core_calls cores ++ nice_calls nice)
  unfolding until_failure
  configured-until_failure [] none = refl
  configured-until_failure [] (some n) =
      elim (Bool-cases (system (set_nice_call (to_int n)) == 0)) [
        | inl e ↦ rw e refl
        | inr e ↦ rw e refl
      ]
  configured-until_failure (c ∷ cs) none =
      elim (Bool-cases (system (set_affinity_call (map to_int (c ∷ cs))) == 0)) [
        | inl e ↦ rw e refl
        | inr e ↦ rw e refl
      ]
  configured-until_failure (c ∷ cs) (some n) =
      elim (Bool-cases (system (set_affinity_call (map to_int (c ∷ cs))) == 0)) [
        | inl e ↦ elim (Bool-cases (system (set_nice_call (to_int n)) == 0)) [
          | inl h ↦ rw (e, h) refl
          | inr h ↦ rw (e, h) refl
        ]
        | inr e ↦ rw e refl
      ]

  configure_by-asked :
      (found : Option Thread) → configure_by system (model_of found) ≡ until_failure (asked found)
  unfolding until_failure asked
  configure_by-asked none = refl
  configure_by-asked (some c) = configured-until_failure c.core_numbers c.nice_value

  -- A thread is configured by the last entry for its name up to a zero byte, whatever the others say: the
  -- system calls made are to set that entry's cores, when it has some, and then its nice value, when it has one,
  -- up to the first that fails, whose failure is thrown; no other call is made, also not for the priority, and
  -- without an entry none is.
  pub configure-parse_all :
      (cs : List Thread) (name : Bytes)
      → configure system name (parse_all cs [])
        ≡ until_failure (asked (last_entry (c_string name) cs none))
  unfolding configure get_model
  configure-parse_all cs name =
      ap (configure_by system) (parsed cs (c_string name) [] none refl)
      ∙ configure_by-asked (last_entry (c_string name) cs none)
