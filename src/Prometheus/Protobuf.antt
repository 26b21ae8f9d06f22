-- ===== src/Prometheus/Protobuf.antt =====
-- src/postboy/prometheus_metrics/proto_serializer.cpp: the metrics as protobuf messages.
use postboy.Prelude.{Option, none, some, List, [], ◌∷◌, ◌++◌, Bool, true, false, Bytes}
use postboy.Prometheus.Names.{MetricType, counter, gauge}
use postboy.Prometheus.Text.{Stream, Label, ClientMetric, MetricFamily}

-- A message's label; `Counter` and `Gauge` messages have the same fields.
pub record ProtoLabel : Type 0 where
  pub key : Bytes
  pub value : Bytes

-- The loop over a metric's labels.
abbrev pub add_labels : List Label → List ProtoLabel
add_labels [] = []
add_labels (l ∷ ls) = record { key = l.name; value = l.value } ∷ add_labels ls

module _ (s : Stream) where
  open s use {Double}

  pub record ProtoMetric : Type 0 where
    pub value : Double
    pub labels : List ProtoLabel

  -- `name` and `help` are required fields, which may not be set yet.
  pub record ProtoFamily : Type 0 where
    pub name : Option Bytes
    pub help : Option Bytes
    pub counters : List ProtoMetric
    pub gauges : List ProtoMetric

  abbrev pub counter_message : ClientMetric s → ProtoMetric
  counter_message m = record { value = m.counter_value; labels = add_labels m.label }

  abbrev pub gauge_message : ClientMetric s → ProtoMetric
  gauge_message m = record { value = m.gauge_value; labels = add_labels m.label }

  -- The loops over a family's metrics.
  abbrev pub counter_messages : List (ClientMetric s) → List ProtoMetric
  counter_messages [] = []
  counter_messages (m ∷ ms) = counter_message m ∷ counter_messages ms

  abbrev pub gauge_messages : List (ClientMetric s) → List ProtoMetric
  gauge_messages [] = []
  gauge_messages (m ∷ ms) = gauge_message m ∷ gauge_messages ms

  -- The switch over the type, which has no case for a histogram.
  abbrev pub family_message : MetricFamily s → MetricType → ProtoFamily
  family_message f counter = record {
    name = some f.name;
    help = some f.help;
    counters = counter_messages f.metric;
    gauges = [];
  }
  family_message f gauge = record {
    name = some f.name;
    help = some f.help;
    counters = [];
    gauges = gauge_messages f.metric;
  }
  family_message f type = record {
    name = some f.name;
    help = some f.help;
    counters = [];
    gauges = [];
  }

  unfoldable pub serialize_metric_family : MetricFamily s → ProtoFamily
  serialize_metric_family f = family_message f f.type

  unfoldable pub serialize_metric_families : List (MetricFamily s) → List ProtoFamily
  unfolding serialize_metric_family
  serialize_metric_families [] = []
  serialize_metric_families (f ∷ fs) = serialize_metric_family f ∷ serialize_metric_families fs

  -- `add_families()` leaves a family whose fields are not set.
  abbrev pub unset_family : ProtoFamily
  unset_family = record { name = none; help = none; counters = []; gauges = [] }

  unfoldable pub serialize : List (MetricFamily s) → List ProtoFamily
  unfolding serialize_metric_families
  serialize [] = []
  serialize (f ∷ fs) = unset_family ∷ serialize_metric_families (f ∷ fs)

  -- What a reader of the messages takes from them: the values with their labels.
  pub record Reading : Type 0 where
    pub name : Bytes
    pub help : Bytes
    pub values : List (Double × List (Bytes × Bytes))

  abbrev pub read_labels : List ProtoLabel → List (Bytes × Bytes)
  read_labels [] = []
  read_labels (l ∷ ls) = (l.key, l.value) ∷ read_labels ls

  abbrev pub read_values : List ProtoMetric → List (Double × List (Bytes × Bytes))
  read_values [] = []
  read_values (m ∷ ms) = (m.value, read_labels m.labels) ∷ read_values ms

  abbrev pub reading_of : Option Bytes → Option Bytes → ProtoFamily → Option Reading
  reading_of (some name) (some help) f =
      some (record {
        name = name;
        help = help;
        values = read_values f.counters ++ read_values f.gauges;
      })
  reading_of _ _ f = none

  -- A family whose required fields are not both set is rejected, and with it the whole message.
  abbrev pub read_family : ProtoFamily → Option Reading
  read_family f = reading_of f.name f.help f

  abbrev pub with_readings : Option Reading → Option (List Reading) → Option (List Reading)
  with_readings (some r) (some rs) = some (r ∷ rs)
  with_readings (some r) none = none
  with_readings none later = none

  abbrev pub read_families : List ProtoFamily → Option (List Reading)
  read_families [] = some []
  read_families (f ∷ fs) = with_readings (read_family f) (read_families fs)

  -- The same, taken from the metrics.
  abbrev pub own_labels : List Label → List (Bytes × Bytes)
  own_labels [] = []
  own_labels (l ∷ ls) = (l.name, l.value) ∷ own_labels ls

  abbrev pub own_value : MetricType → ClientMetric s → List (Double × List (Bytes × Bytes))
  own_value counter m = (m.counter_value, own_labels m.label) ∷ []
  own_value gauge m = (m.gauge_value, own_labels m.label) ∷ []
  own_value type m = []

  abbrev pub own_values : MetricType → List (ClientMetric s) → List (Double × List (Bytes × Bytes))
  own_values type [] = []
  own_values type (m ∷ ms) = own_value type m ++ own_values type ms

  abbrev pub own_reading : MetricFamily s → Reading
  own_reading f = record { name = f.name; help = f.help; values = own_values f.type f.metric }

  abbrev pub own_readings : List (MetricFamily s) → List Reading
  own_readings [] = []
  own_readings (f ∷ fs) = own_reading f ∷ own_readings fs

  abbrev pub no_families : List (MetricFamily s) → Bool
  no_families [] = true
  no_families (f ∷ fs) = false
