-- ===== src/Prometheus/GatewayStatus.antt =====
-- What a push answers, and as whom it is made.
use postboy.Prelude.{
  ℕ, zero, suc, ◌%◌, ◌^◌, ◌≤◌, ◌<◌, ◌≡◌, refl, ◌↔◌, inl, inr, some, List, [], ◌∷◌, ◌++◌, arith, ltb,
  leb, ◌==◌, if◌then◌else◌, true, false, ◌||◌, Bool-cases, Bytes,
}
use postboy.Prometheus.Text.{Stream, MetricFamily, serialize}
use postboy.Prometheus.Gateway.{
  ℤ, pos, HttpMethod, CurlPerform, PushGateway, PrometheusConfig, settings, perform_http_request,
  to_int, negated, get_uri, is_invalid, push_internal, create_from_config, push_gateway,
  curl_wrapper,
}

abbrev performed : ℕ × ℕ → ℤ
performed o = if o.0 == 0 then to_int o.1 else negated o.0

pos_injective : {m n : ℕ} → pos m ≡ pos n → m ≡ n
pos_injective e = cc e

small-to_int : (code : ℕ) → code < 2 ^ 31 → to_int code ≡ pos code
small-to_int code small =
    let plain : code % 2 ^ 32 ≡ code = omega (arith, small) in
    let low : ltb code (2 ^ 31) ≡ true = ground arith in rw (plain, low) refl

code_iff :
    (code : ℕ)
    → ((if ltb code 100 || leb 400 code then pos code else pos 200) ≡ pos 200)
      ↔ ((100 ≤ code) × (code < 400))
code_iff code = elim (Bool-cases (ltb code 100 || leb 400 code)) [
  | inl e ↦ rw e ((λ h. let same = pos_injective h in ground arith), λ h. ground (arith, e, h))
  | inr e ↦ rw e ((λ _. ground (arith, e)), λ _. refl)
]

answer_iff :
    (o : ℕ × ℕ)
    → o.1 < 2 ^ 31
    → ((if is_invalid (performed o) then performed o else pos 200) ≡ pos 200)
      ↔ ((o.0 ≡ 0) × (100 ≤ o.1) × (o.1 < 400))
answer_iff (zero, code) small =
    let (to, from) = code_iff code in
    rw (small-to_int code small)
      ((λ h. let (low, high) = to h in (refl, low, high)), λ (_, low, high). from (low, high))
answer_iff (suc error, code) small =
    let failed : (suc error == 0) ≡ false = ground arith in
    rw failed ((λ h. absurd (cc h)), λ h. absurd (omega (arith, h.0)))

-- A push answers 200 exactly when curl makes no error and the response's code is one from 100 to 399,
-- where that code is below 2^31.
push_internal_iff :
    (s : Stream) (perform : CurlPerform) (g : PushGateway) (metrics : List (MetricFamily s))
    (method : HttpMethod)
    → let (error, code) = perform (settings g.curl_auth method (get_uri g) (serialize s metrics)) in
      code < 2 ^ 31
      → (push_internal s perform g metrics method ≡ pos 200)
        ↔ ((error ≡ 0) × (100 ≤ code) × (code < 400))
unfolding push_internal perform_http_request
push_internal_iff s perform g metrics method small =
    answer_iff (perform (settings g.curl_auth method (get_uri g) (serialize s metrics))) small

-- With a password that is not empty in the configuration, a gateway that is made sends this password as
-- the user's name, no password, and the configured name never.
create_from_config-auth :
    (c : PrometheusConfig) (first : ℕ) (rest : Bytes)
    → c.userpassword ≡ some (first ∷ rest)
    → (g : PushGateway) × (create_from_config true true (some c) ≡ some (some g))
      × (g.curl_auth ≡ (first ∷ rest) ++ (b':' ∷ []))
      × (g.auth ≡ g.curl_auth)
unfolding create_from_config push_gateway curl_wrapper
create_from_config-auth c first rest has = rw has (_, refl, refl, refl)
