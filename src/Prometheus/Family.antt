-- ===== src/Prometheus/Family.antt =====
-- src/postboy/prometheus_metrics/family.cpp: one name's metrics, each under its own label set.
-- A metric is a value at an address; labels are the sorted map's entries; none is VERIFY's panic.
use postboy.Prelude.{
  ℕ, Option, none, some, List, [], ◌∷◌, ◌++◌, map, ◌==◌, if◌then◌else◌, Bool, true, false, not,
  ◌&&◌, ◌||◌, Bytes, bytes_eq,
}
use postboy.Prometheus.Names.{MetricType, check_metric_name, check_label_name}
use postboy.Prometheus.Text.{Stream, Label, ClientMetric, MetricFamily}

abbrev pub Labels : Type 0
Labels = List Label

-- Equality of two maps: the same entries in the same order.
unfoldable pub labels_eq : Labels → Labels → Bool
labels_eq [] [] = true
labels_eq [] (m ∷ ms) = false
labels_eq (l ∷ ls) [] = false
labels_eq (l ∷ ls) (m ∷ ms) =
    (bytes_eq l.name m.name && bytes_eq l.value m.value) && labels_eq ls ms

unfoldable pub contains : Labels → Bytes → Bool
contains [] name = false
contains (l ∷ ls) name = bytes_eq l.name name || contains ls name

-- The constructor's loop over the constant labels.
unfoldable pub label_names_valid : MetricType → Labels → Bool
label_names_valid type [] = true
label_names_valid type (l ∷ ls) = check_label_name l.name type && label_names_valid type ls

-- `Add`'s loop over the new labels: a valid name, and not a constant label's.
unfoldable pub labels_fit : MetricType → Labels → Labels → Bool
labels_fit type constant [] = true
labels_fit type constant (l ∷ ls) =
    (check_label_name l.name type && not (contains constant l.name)) && labels_fit type constant ls

pub record Entry (T : Type 0) : Type 0 where
  pub labels : Labels
  pub address : ℕ
  pub metric : T

pub record Family (T : Type 0) : Type 0 where
  pub name : Bytes
  pub help : Bytes
  pub constant_labels : Labels
  pub metrics : List (Entry T)

module _ {T : Type 0} where
  abbrev pub find_labels : Labels → List (Entry T) → Bool
  find_labels labels [] = false
  find_labels labels (e ∷ es) = labels_eq e.labels labels || find_labels labels es

  -- `erase` of the first entry with this address.
  abbrev pub erase_metric : ℕ → List (Entry T) → List (Entry T)
  erase_metric address [] = []
  erase_metric address (e ∷ es) =
      let rest = erase_metric address es in if e.address == address then es else e ∷ rest

  unfoldable pub construct : MetricType → Bytes → Bytes → Labels → Option (Family T)
  construct type name help constant =
      if not (check_metric_name name)
      then none
      else if not (label_names_valid type constant)
      then none
      else some (record { name = name; help = help; constant_labels = constant; metrics = [] })

  unfoldable pub has : Family T → Labels → Bool
  has f labels = find_labels labels f.metrics

  -- `Add` behind its call of `Has`, under the lock, which `Has` has released.
  unfoldable pub push_metric : MetricType → Family T → Labels → ℕ → T → Option (Family T)
  push_metric type f labels address metric =
      if not (labels_fit type f.constant_labels labels)
      then none
      else some record {
        name = f.name;
        help = f.help;
        constant_labels = f.constant_labels;
        metrics =
            f.metrics ++ (record { labels = labels; address = address; metric = metric } ∷ []);
      }

  unfoldable pub remove : Family T → ℕ → Family T
  remove f address = record {
    name = f.name;
    help = f.help;
    constant_labels = f.constant_labels;
    metrics = erase_metric address f.metrics;
  }

module _ (s : Stream) {T : Type 0} (type : MetricType) (collected : T → ClientMetric s) where
  -- The metric's own sample, with the constant labels and then its labels behind its own.
  unfoldable pub collect_metric : Family T → Entry T → ClientMetric s
  collect_metric f e =
      let c = collected e.metric in
      record {
        label = c.label ++ f.constant_labels ++ e.labels;
        counter_value = c.counter_value;
        gauge_value = c.gauge_value;
        sample_count = c.sample_count;
        sample_sum = c.sample_sum;
        buckets = c.buckets;
        timestamp_ms = c.timestamp_ms;
      }

  abbrev family_of : Family T → List (Entry T) → List (MetricFamily s)
  family_of f [] = []
  family_of f (e ∷ es) =
      record { name = f.name; help = f.help; type = type; metric = map (collect_metric f) (e ∷ es) }
      ∷ []

  unfoldable pub collect_family : Family T → List (MetricFamily s)
  collect_family f = family_of f f.metrics
