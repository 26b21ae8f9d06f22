-- ===== src/Prometheus/Registry.antt =====
-- src/postboy/prometheus_metrics/registry.cpp: the families of the three metric types, by name.
-- A family stands at an address, which Remove compares; none is VERIFY's panic.
use postboy.Prelude.{
  ℕ, Option, none, some, List, [], ◌∷◌, ◌++◌, ◌==◌, if◌then◌else◌, Bool, false, ◌||◌, Bytes,
  bytes_eq,
}
use postboy.Prometheus.Names.{MetricType, counter, gauge, histogram}
use postboy.Prometheus.Text.{Stream, ClientMetric, MetricFamily}
use postboy.Prometheus.Family.{Labels, Family, construct, collect_family}

pub record Held (T : Type 0) : Type 0 where
  pub address : ℕ
  pub family : Family T

module _ {T : Type 0} where
  -- `FamilyNameExists` over one list, and the `find_if` of `Add`.
  abbrev pub family_name_exists : Bytes → List (Held T) → Bool
  family_name_exists name [] = false
  family_name_exists name (h ∷ hs) = bytes_eq name h.family.name || family_name_exists name hs

  abbrev pub holds : ℕ → List (Held T) → Bool
  holds address [] = false
  holds address (h ∷ hs) = h.address == address || holds address hs

  abbrev pub erase_family : ℕ → List (Held T) → List (Held T)
  erase_family address [] = []
  erase_family address (h ∷ hs) =
      let rest = erase_family address hs in if h.address == address then hs else h ∷ rest

  abbrev pushed : List (Held T) → ℕ → Option (Family T) → Option (List (Held T))
  pushed families address none = none
  pushed families address (some f) =
      some (families ++ (record { address = address; family = f } ∷ []))

  -- `Add` on the list of its type, when `in_other` is what `NameExistsInOtherType` said.
  unfoldable pub add_to :
      MetricType → Bool → List (Held T) → Bytes → Bytes → Labels → ℕ → Option (List (Held T))
  unfolding construct
  add_to type in_other families name help labels address =
      if in_other
      then none
      else if family_name_exists name families
      then none
      else pushed families address (construct type name help labels)

-- The metric types are parameters here: a family never looks into its metrics.
pub record Registry (C G H : Type 0) : Type 0 where
  pub counters : List (Held C)
  pub gauges : List (Held G)
  pub histograms : List (Held H)

module _ {C G H : Type 0} where
  abbrev pub with_counters : Registry C G H → Option (List (Held C)) → Option (Registry C G H)
  with_counters r none = none
  with_counters r (some fs) =
      some (record { counters = fs; gauges = r.gauges; histograms = r.histograms })

  abbrev pub with_gauges : Registry C G H → Option (List (Held G)) → Option (Registry C G H)
  with_gauges r none = none
  with_gauges r (some fs) =
      some (record { counters = r.counters; gauges = fs; histograms = r.histograms })

  abbrev pub with_histograms : Registry C G H → Option (List (Held H)) → Option (Registry C G H)
  with_histograms r none = none
  with_histograms r (some fs) =
      some (record { counters = r.counters; gauges = r.gauges; histograms = fs })

  unfoldable pub add_counter : Registry C G H → Bytes → Bytes → Labels → ℕ → Option (Registry C G H)
  unfolding add_to
  add_counter r name help labels address =
      with_counters r
        (add_to counter (family_name_exists name r.gauges) r.counters name help labels address)

  unfoldable pub add_gauge : Registry C G H → Bytes → Bytes → Labels → ℕ → Option (Registry C G H)
  unfolding add_to
  add_gauge r name help labels address =
      with_gauges r
        (add_to gauge (family_name_exists name r.counters) r.gauges name help labels address)

  unfoldable pub add_histogram :
      Registry C G H → Bytes → Bytes → Labels → ℕ → Option (Registry C G H)
  unfolding add_to
  add_histogram r name help labels address = with_histograms r (
      add_to histogram (family_name_exists name r.histograms) r.histograms name help labels address)

  unfoldable pub remove_counter : Registry C G H → ℕ → Registry C G H × Bool
  remove_counter r address = (
    record {
      counters = erase_family address r.counters;
      gauges = r.gauges;
      histograms = r.histograms;
    },
    holds address r.counters,
  )

  unfoldable pub remove_gauge : Registry C G H → ℕ → Registry C G H × Bool
  remove_gauge r address = (
    record {
      counters = r.counters;
      gauges = erase_family address r.gauges;
      histograms = r.histograms;
    },
    holds address r.gauges,
  )

  unfoldable pub remove_histogram : Registry C G H → ℕ → Registry C G H × Bool
  remove_histogram r address = (
    record {
      counters = r.counters;
      gauges = r.gauges;
      histograms = erase_family address r.histograms;
    },
    holds address r.histograms,
  )

  unfoldable pub empty_registry : Registry C G H
  empty_registry = record { counters = []; gauges = []; histograms = [] }

-- `CollectAll`: the families' samples one after another.
abbrev pub collect_all :
    (s : Stream) {T : Type 0}
    → (Family T → List (MetricFamily s))
    → List (Held T)
    → List (MetricFamily s)
collect_all s collect_one [] = []
collect_all s collect_one (h ∷ hs) = collect_one h.family ++ collect_all s collect_one hs

module _ (s : Stream) {C G H : Type 0} (sample_counter : C → ClientMetric s)
    (sample_gauge : G → ClientMetric s) (sample_histogram : H → ClientMetric s) where
  unfoldable pub collect : Registry C G H → List (MetricFamily s)
  unfolding collect_family
  collect r =
      collect_all s (collect_family s counter sample_counter) r.counters
      ++ (collect_all s (collect_family s gauge sample_gauge) r.gauges
          ++ collect_all s (collect_family s histogram sample_histogram) r.histograms)
