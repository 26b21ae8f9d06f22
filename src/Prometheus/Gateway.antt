-- ===== src/Prometheus/Gateway.antt =====
-- src/postboy/prometheus_metrics/gateway.cpp: pushing the metrics' text form by HTTP.
-- curl is a parameter: from the options set since the last reset it gives its error, where 0 is none,
-- and the response's code.
use postboy.Prelude.{
  ℕ, zero, suc, ◌-◌, ◌%◌, ◌^◌, Option, none, some, List, [], ◌∷◌, ◌++◌, length, ltb, leb, ◌==◌,
  if◌then◌else◌, Bool, true, false, not, ◌||◌, Bytes, codes, bytes_eq,
}
use postboy.Prometheus.Text.{Stream, Label, MetricFamily, is_empty, serialize}

-- An `int`.
pub data ℤ : Type 0 where
  pos negsuc : ℕ → ℤ

pub data HttpMethod : Type 0 where
  post put delete : HttpMethod

-- A call of `curl_easy_setopt`.
pub data Setting : Type 0 where
  url http_header post_fields userpwd custom_request : Bytes → Setting
  post_field_size : ℕ → Setting
  http_auth_basic post_on nobody_off http_get_off : Setting

abbrev pub CurlPerform : Type 0
CurlPerform = List Setting → ℕ × ℕ

abbrev pub content_type : Bytes
content_type = codes "Content-Type: text/plain; version=0.0.4; charset=utf-8"

-- `username + ":" + password`; none for an empty name.
abbrev pub credentials : Bytes → Bytes → Bytes
credentials username password = if is_empty username then [] else username ++ (b':' ∷ password)

-- `CurlWrapper`'s constructor, by whether curl gave a handle and a list of headers; it keeps `auth_`.
unfoldable pub curl_wrapper : (handle headers : Bool) → Bytes → Bytes → Option Bytes
curl_wrapper handle headers username password =
    if not handle then none else if not headers then none else some (credentials username password)

abbrev pub method_settings : HttpMethod → List Setting
method_settings post = post_on ∷ []
method_settings put = nobody_off ∷ custom_request (codes "PUT") ∷ []
method_settings delete = http_get_off ∷ nobody_off ∷ custom_request (codes "DELETE") ∷ []

unfoldable pub settings : Bytes → HttpMethod → Bytes → Bytes → List Setting
settings auth method uri body =
    (url uri ∷ http_header content_type ∷ [])
    ++ ((if is_empty body
          then post_field_size 0 ∷ []
          else post_field_size (length body) ∷ post_fields body ∷ [])
        ++ ((if is_empty auth then [] else http_auth_basic ∷ userpwd auth ∷ [])
            ++ method_settings method))

-- An `int64_t` returned as `int`, and `-curlError`.
abbrev pub to_int : ℕ → ℤ
to_int n = if ltb (n % 2 ^ 32) (2 ^ 31) then pos (n % 2 ^ 32) else negsuc (2 ^ 32 - 1 - n % 2 ^ 32)

abbrev pub negated : ℕ → ℤ
negated zero = pos 0
negated (suc n) = negsuc n

unfoldable pub perform_http_request : CurlPerform → Bytes → HttpMethod → Bytes → Bytes → ℤ
unfolding settings
perform_http_request perform auth method uri body =
    let (error, code) = perform (settings auth method uri body) in
    if error == 0 then to_int code else negated error

-- `PushGateway`, with its wrapper's `auth_`; the metrics are asked of the registry at each push.
pub record PushGateway : Type 0 where
  pub job_uri : Bytes
  pub labels : Bytes
  pub auth : Bytes
  pub curl_auth : Bytes

abbrev pub label_path : List Label → Bytes
label_path [] = []
label_path (l ∷ ls) = (b'/' ∷ l.name) ++ ((b'/' ∷ l.value) ++ label_path ls)

abbrev pub gateway :
    Bytes → Bytes → Bytes → List Label → Bytes → Bytes → Option Bytes → Option PushGateway
gateway host port jobname labels username password none = none
gateway host port jobname labels username password (some curl_auth) = some (record {
  job_uri = host ++ (b':' ∷ (port ++ (codes "/metrics/job/" ++ jobname)));
  labels = label_path labels;
  auth = credentials username password;
  curl_auth = curl_auth;
})

-- The constructor; `none` is a failed VERIFY.
unfoldable pub push_gateway :
    (handle headers : Bool)
    → Bytes
    → Bytes
    → Bytes
    → List Label
    → Bytes
    → Bytes
    → Option PushGateway
unfolding curl_wrapper
push_gateway handle headers host port jobname labels username password =
    gateway host port jobname labels username password
      (curl_wrapper handle headers username password)

abbrev pub get_uri : PushGateway → Bytes
get_uri g = g.job_uri ++ g.labels

-- `statusCode < 100 || statusCode >= 400`
abbrev pub is_invalid : ℤ → Bool
is_invalid (pos n) = ltb n 100 || leb 400 n
is_invalid (negsuc n) = true

unfoldable pub push_internal :
    (s : Stream) → CurlPerform → PushGateway → List (MetricFamily s) → HttpMethod → ℤ
unfolding serialize perform_http_request
push_internal s perform g metrics method =
    let status =
      perform_http_request perform g.curl_auth method (get_uri g) (serialize s metrics) in
    if is_invalid status then status else pos 200

unfoldable pub push : (s : Stream) → CurlPerform → PushGateway → List (MetricFamily s) → ℤ
unfolding push_internal
push s perform g metrics = push_internal s perform g metrics post

unfoldable pub push_add : (s : Stream) → CurlPerform → PushGateway → List (MetricFamily s) → ℤ
unfolding push_internal
push_add s perform g metrics = push_internal s perform g metrics put

-- The configuration's part on the gateway.
pub record PrometheusConfig : Type 0 where
  pub host : Bytes
  pub port : Bytes
  pub jobname : Bytes
  pub config_labels : List Label
  pub username : Option Bytes
  pub userpassword : Option Bytes

-- The order of the map's keys.
abbrev pub bytes_less : Bytes → Bytes → Bool
bytes_less [] [] = false
bytes_less [] (d ∷ ds) = true
bytes_less (c ∷ cs) [] = false
bytes_less (c ∷ cs) (d ∷ ds) = let later = bytes_less cs ds in if c == d then later else ltb c d

-- `insert` keeps the entry of a name that is there.
abbrev pub insert_label : Label → List Label → List Label
insert_label l [] = l ∷ []
insert_label l (m ∷ ms) =
    let later = insert_label l ms in
    if bytes_eq l.name m.name
    then m ∷ ms
    else if bytes_less l.name m.name
    then l ∷ m ∷ ms
    else m ∷ later

abbrev pub insert_labels : List Label → List Label → List Label
insert_labels [] held = held
insert_labels (l ∷ ls) held = insert_labels ls (insert_label l held)

abbrev pub or_empty : Option Bytes → Bytes
or_empty none = []
or_empty (some b) = b

-- The password goes where the name was.
abbrev pub overwritten : Option Bytes → Bytes → Bytes
overwritten none username = username
overwritten (some password) username = password

-- `CreatePushGatewayFromConfig`; the outer `none` is a null pointer.
unfoldable pub create_from_config :
    (handle headers : Bool) → Option PrometheusConfig → Option (Option PushGateway)
unfolding push_gateway
create_from_config handle headers none = none
create_from_config handle headers (some c) =
    let username = overwritten c.userpassword (or_empty c.username) in
    some (
      push_gateway handle headers c.host c.port c.jobname (insert_labels c.config_labels [])
        username [])
