-- ===== src/Prometheus/Text.antt =====
-- src/postboy/prometheus_metrics/text_serializer.cpp, client_metric.hpp and metric_family.hpp.
-- Strings are lists of bytes. Doubles, and how the standard stream prints them, are a parameter.
use postboy.Prelude.{
  ℕ, List, [], ◌∷◌, ◌++◌, ◌==◌, if◌then◌else◌, Bool, true, false, not, ◌&&◌, ◌||◌, Bytes, codes,
}
use postboy.Prometheus.Names.{MetricType, unexpected, counter, gauge, histogram}

-- What the serializer asks of `double` and of an output stream.
pub record Stream : Type 1 where
  pub Double : Type 0
  pub is_nan : Double → Bool
  pub is_inf : Double → Bool
  pub is_negative : Double → Bool
  pub show_double : Double → Bytes
  pub show_int : ℕ → Bytes

pub record Label : Type 0 where
  pub name : Bytes
  pub value : Bytes

-- `WriteValue` of a string: escapes newline, backslash and quote.
abbrev pub escape : ℕ → Bytes
escape c =
    if c == 10
    then 92 ∷ b'n' ∷ []
    else if c == 92
    then 92 ∷ c ∷ []
    else if c == 34
    then 92 ∷ c ∷ []
    else c ∷ []

unfoldable pub write_string : Bytes → Bytes
write_string [] = []
write_string (c ∷ cs) = escape c ++ write_string cs

-- One label: name, `="`, escaped value, quote.
unfoldable pub write_pair : Bytes → Bytes → Bytes
write_pair name value = name ++ (b'=' ∷ 34 ∷ (value ++ (34 ∷ [])))

-- The loop over the labels; `prefix` is "" for the first and "," after it.
unfoldable pub write_labels : Bytes → List Label → Bytes
write_labels prefix [] = []
write_labels prefix (l ∷ ls) =
    prefix ++ (write_pair l.name (write_string l.value) ++ write_labels (b',' ∷ []) ls)

abbrev pub no_labels : List Label → Bool
no_labels [] = true
no_labels (l ∷ ls) = false

abbrev pub is_empty : Bytes → Bool
is_empty [] = true
is_empty (c ∷ cs) = false

abbrev pub prefix_after : List Label → Bytes
prefix_after [] = []
prefix_after (l ∷ ls) = b',' ∷ []

-- The extra label, its value already written; an empty name is none.
unfoldable pub write_extra : Bytes → Bytes → Bytes → Bytes
write_extra prefix extra_name extra_value =
    if is_empty extra_name then [] else prefix ++ write_pair extra_name extra_value

unfoldable pub write_head : Bytes → List Label → Bytes → Bytes → Bytes → Bytes
write_head family_name labels suffix extra_name extra_value =
    family_name
    ++ (suffix
        ++ ((if not (no_labels labels) || not (is_empty extra_name)
              then b'{'
                ∷ (write_labels [] labels
                    ++ (write_extra (prefix_after labels) extra_name extra_value ++ (b'}' ∷ [])))
              else [])
            ++ (32 ∷ [])))

module _ (s : Stream) where
  open s use {Double, is_nan, is_inf, is_negative, show_double, show_int}

  pub record Bucket : Type 0 where
    pub cumulative_count : ℕ
    pub upper_bound : Double

  pub record ClientMetric : Type 0 where
    pub label : List Label
    pub counter_value : Double
    pub gauge_value : Double
    pub sample_count : ℕ
    pub sample_sum : Double
    pub buckets : List Bucket
    pub timestamp_ms : ℕ

  pub record MetricFamily : Type 0 where
    pub name : Bytes
    pub help : Bytes
    pub type : MetricType
    pub metric : List ClientMetric

  unfoldable pub write_double : Double → Bytes
  write_double v =
      if is_nan v
      then codes "Nan"
      else if is_inf v
      then (if is_negative v then codes "-Inf" else codes "+Inf")
      else show_double v

  unfoldable pub write_tail : ClientMetric → Bytes
  write_tail m = (if m.timestamp_ms == 0 then [] else 32 ∷ show_int m.timestamp_ms) ++ (10 ∷ [])

  unfoldable pub serialize_counter : MetricFamily → ClientMetric → Bytes
  serialize_counter f m =
      write_head f.name m.label [] [] [] ++ (write_double m.counter_value ++ write_tail m)

  unfoldable pub serialize_gauge : MetricFamily → ClientMetric → Bytes
  serialize_gauge f m =
      write_head f.name m.label [] [] [] ++ (write_double m.gauge_value ++ write_tail m)

  -- One bucket's line; the bound is already written.
  unfoldable pub bucket_line : MetricFamily → ClientMetric → Bytes → ℕ → Bytes
  bucket_line f m bound count =
      write_head f.name m.label (codes "_bucket") (codes "le") bound
      ++ (show_int count ++ write_tail m)

  -- `last != infinity`
  abbrev pub is_plus_inf : Double → Bool
  is_plus_inf v = is_inf v && not (is_negative v)

  -- The loop over the buckets, and what follows it; `last` tells whether the last bound was infinity.
  unfoldable pub bucket_lines : MetricFamily → ClientMetric → Bool → List Bucket → Bytes
  bucket_lines f m last [] =
      if last then [] else bucket_line f m (write_string (codes "+Inf")) m.sample_count
  bucket_lines f m last (b ∷ bs) =
      bucket_line f m (write_double b.upper_bound) b.cumulative_count
      ++ bucket_lines f m (is_plus_inf b.upper_bound) bs

  unfoldable pub serialize_histogram : MetricFamily → ClientMetric → Bytes
  serialize_histogram f m =
      (write_head f.name m.label (codes "_count") [] []
        ++ (show_int m.sample_count ++ write_tail m))
      ++ ((write_head f.name m.label (codes "_sum") [] []
            ++ (write_double m.sample_sum ++ write_tail m))
          ++ bucket_lines f m false m.buckets)

  unfoldable pub each_metric : (ClientMetric → Bytes) → List ClientMetric → Bytes
  each_metric write [] = []
  each_metric write (m ∷ ms) = write m ++ each_metric write ms

  unfoldable pub serialize_metrics : MetricFamily → MetricType → Bytes
  serialize_metrics f counter =
      codes "# TYPE "
      ++ (f.name ++ (codes " counter" ++ (10 ∷ each_metric (serialize_counter f) f.metric)))
  serialize_metrics f gauge =
      codes "# TYPE "
      ++ (f.name ++ (codes " gauge" ++ (10 ∷ each_metric (serialize_gauge f) f.metric)))
  serialize_metrics f histogram =
      codes "# TYPE "
      ++ (f.name ++ (codes " histogram" ++ (10 ∷ each_metric (serialize_histogram f) f.metric)))
  serialize_metrics f unexpected = []

  unfoldable pub serialize_family : MetricFamily → Bytes
  serialize_family f =
      (if is_empty f.help then [] else codes "# HELP " ++ (f.name ++ (32 ∷ (f.help ++ (10 ∷ [])))))
      ++ serialize_metrics f f.type

  unfoldable pub serialize : List MetricFamily → Bytes
  serialize [] = []
  serialize (f ∷ fs) = serialize_family f ++ serialize fs
