-- ===== src/Prometheus/PushTests.antt =====
-- Pushing one counter's value, and its protobuf form.
use postboy.Prelude.{ℕ, List, [], ◌∷◌, false, codes}
use postboy.Prometheus.Names.{counter}
use postboy.Prometheus.Text.{Stream, Label, ClientMetric, MetricFamily}
use postboy.Prometheus.Protobuf as Protobuf
use postboy.Prometheus.Gateway.{CurlPerform, PushGateway}

-- Whole numbers for doubles, printed as nothing.
abbrev stream : Stream
stream = record {
  Double = ℕ;
  is_nan = λ _. false;
  is_inf = λ _. false;
  is_negative = λ _. false;
  show_double = λ _. [];
  show_int = λ _. [];
}

abbrev label : Label
label = record { name = codes "q"; value = codes "a" }

abbrev metric : ClientMetric stream
metric = record {
  label = label ∷ [];
  counter_value = 7;
  gauge_value = 0;
  sample_count = 0;
  sample_sum = 0;
  buckets = [];
  timestamp_ms = 0;
}

abbrev families : List (MetricFamily stream)
families =
    record { name = codes "puts"; help = codes "put"; type = counter; metric = metric ∷ [] } ∷ []

-- The server answers 302.
abbrev found : CurlPerform
found _ = (0, 302)

abbrev gateway : PushGateway
gateway = record { job_uri = codes "h:9091/metrics/job/p"; labels = []; auth = []; curl_auth = [] }
