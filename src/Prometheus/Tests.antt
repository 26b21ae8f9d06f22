-- ===== src/Prometheus/Tests.antt =====
-- The metrics' theorems at small names, families, registries and histograms.
use postboy.Prelude.{
  List, Option, update_at, update_at-cases, sym, inl, inr, ℕ, ◌+◌, ◌≡◌, refl, none, some, [], ◌∷◌,
  ◌++◌, true, false, ltb, codes, bytes_eq, Bytes, arith,
}
use postboy.Prometheus.Names.{counter, check_metric_name, check_label_name, name_starts_valid}
use postboy.Prometheus.Histogram.{
  Doubles, Histogram, construct as construct_histogram, collect, observe_all, is_sorted,
}
use postboy.Prometheus.HistogramCounts.{expected_buckets, total, collect-observe_all}
use postboy.Prometheus.Text.{Label, write_labels}
use postboy.Prometheus.TextFormat.{read_labels, read_labels-write_labels}
use postboy.Prometheus.Family.{
  contains, label_names_valid, Family, construct, has, push_metric, labels_fit, labels_eq,
}
use postboy.Prometheus.FamilyLabels.{Shared, Reachable, WellFormed, Reachable-WellFormed}
use postboy.Prometheus.Registry.{Registry, Held, add_to, add_counter, empty_registry}
use postboy.Prometheus.RegistryNames.{Built, NamesApart, Built-NamesApart}

-- Whole numbers in place of doubles.
abbrev whole : Doubles
whole = record {
  Double = ℕ;
  less = ltb;
  add = λ a b. a + b;
  zero_double = 0;
  less_trans = λ a b c p q. ground arith;
}

sorted_bounds : is_sorted whole (2 ∷ 5 ∷ []) ≡ true
unfolding is_sorted
sorted_bounds = refl

collect-observe_all_example :
    (h : Histogram whole) × (construct_histogram whole (2 ∷ 5 ∷ []) ≡ some h)
    × (collect whole (observe_all whole h (1 ∷ 9 ∷ 4 ∷ []))
        ≡ some (record {
          sample_count = 3;
          sample_sum = total whole 0 (1 ∷ 9 ∷ 4 ∷ []);
          buckets = expected_buckets whole (2 ∷ 5 ∷ []) (1 ∷ 9 ∷ 4 ∷ []);
        }))
collect-observe_all_example =
    collect-observe_all whole (2 ∷ 5 ∷ []) (1 ∷ 9 ∷ 4 ∷ []) sorted_bounds (omega arith)

abbrev quoted : Bytes
quoted = 97 ∷ 34 ∷ 92 ∷ 10 ∷ []

abbrev host : Label
host = record { name = codes "host"; value = quoted }

abbrev port : Label
port = record { name = codes "port"; value = codes "80" }

read_labels-write_labels_example :
    read_labels 2 (write_labels [] (host ∷ port ∷ []) ++ (b'}' ∷ [])) ≡ some (host ∷ port ∷ [], [])
read_labels-write_labels_example = read_labels-write_labels host (port ∷ []) [] refl

-- A family of counters with one constant label, and one counter added.
abbrev family_of_counters : Family ℕ
family_of_counters = record {
  name = codes "calls";
  help = [];
  constant_labels = record { name = codes "job"; value = codes "a" } ∷ [];
  metrics = [];
}

abbrev one_counter : Family ℕ
one_counter = record family_of_counters {
  metrics = record { labels = port ∷ []; address = 1; metric = 6 } ∷ [];
}

family_reached : Reachable counter (record { family = family_of_counters; adding = λ _. none })
unfolding construct check_metric_name check_label_name label_names_valid name_starts_valid
family_reached =
    Reachable.constructed (codes "calls") [] (record { name = codes "job"; value = codes "a" } ∷ [])
      refl

-- Thread 0 has called Has; then thread 1 has, for other labels.
abbrev two_adding : ℕ → Option (List Label)
two_adding = update_at (update_at (λ _. none) 0 (some (port ∷ []))) 1 (some (host ∷ []))

verified_reached : Reachable counter (record { family = family_of_counters; adding = two_adding })
unfolding has labels_eq bytes_eq
verified_reached =
    Reachable.verified 1 (host ∷ [])
      (Reachable.verified 0 (port ∷ []) family_reached refl refl (λ j ls e. absurd (cc e))) refl
      refl apart
  where
    apart :
        (j : ℕ) (ls : List Label)
        → update_at {A = Option (List Label)} (λ _. none) 0 (some (port ∷ [])) j ≡ some ls
        → labels_eq (host ∷ []) ls ≡ false
    apart j ls e =
        elim (update_at-cases {A = Option (List Label)} (λ _. none) 0 (some (port ∷ [])) j) [
          | inl (_, now) ↦ let same : port ∷ [] ≡ ls = cc (now, e) in rw (sym same) refl
          | inr (_, now) ↦ absurd (cc (now, e))
        ]

abbrev counter_added : Shared ℕ
counter_added = record { family = one_counter; adding = update_at two_adding 0 none }

counter_reached : Reachable counter counter_added
unfolding push_metric labels_fit contains bytes_eq check_label_name name_starts_valid
counter_reached = Reachable.pushed 0 (port ∷ []) 1 6 verified_reached refl refl

Reachable-WellFormed_example : WellFormed counter one_counter
Reachable-WellFormed_example = Reachable-WellFormed counter counter_added counter_reached

abbrev calls_held : Held ℕ
calls_held = record {
  address = 1;
  family = record { name = codes "calls"; help = []; constant_labels = []; metrics = [] };
}

abbrev calls_registry : Registry ℕ ℕ ℕ
calls_registry = record { counters = calls_held ∷ []; gauges = []; histograms = [] }

registry-Built : Built calls_registry
unfolding empty_registry add_counter add_to construct check_metric_name name_starts_valid
    label_names_valid
registry-Built = Built.counter_added (codes "calls") [] [] 1 Built.empty refl

Built-NamesApart_example : NamesApart calls_registry
Built-NamesApart_example = Built-NamesApart calls_registry registry-Built
