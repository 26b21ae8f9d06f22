-- ===== src/ThreadManager/Tests.antt =====
-- The thread manager's theorem at a configuration with two entries for one name.
use postboy.Prelude.{ℕ, ◌≡◌, refl, none, some, List, [], ◌∷◌, codes, c_string, bytes_eq}
use postboy.ThreadManager.{Thread, SystemCall, parse_all, configure}
use postboy.ThreadManager.LastEntry.{last_entry, asked, until_failure, configure-parse_all}

abbrev config : List Thread
config =
    record {
      postboy_name = codes "a";
      core_numbers = 1 ∷ [];
      priority_value = some 5;
      nice_value = none;
    }
    ∷ record {
      postboy_name = codes "b";
      core_numbers = [];
      priority_value = none;
      nice_value = none;
    }
    ∷ record {
      postboy_name = codes "a";
      core_numbers = 2 ∷ 3 ∷ [];
      priority_value = none;
      nice_value = some 7;
    }
    ∷ []

abbrev never_fails : SystemCall → ℕ
never_fails call = 0

configure-parse_all_example :
    configure never_fails (codes "a") (parse_all config [])
    ≡ until_failure never_fails (asked (last_entry (c_string (codes "a")) config none))
configure-parse_all_example = configure-parse_all never_fails config (codes "a")

two_calls :
    until_failure never_fails (asked (last_entry (c_string (codes "a")) config none)) ≡ (record {
      calls = SystemCall.set_affinity_call (2 ∷ 3 ∷ []) ∷ SystemCall.set_nice_call 7 ∷ [];
      failure = none;
    })
unfolding last_entry asked until_failure bytes_eq
two_calls = refl
