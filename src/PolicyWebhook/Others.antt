-- ===== src/PolicyWebhook/Others.antt =====
-- TelemetryProfile and SecurityBaseline: what is admitted.
use platform_governance_oper.Prelude.{
  String, ◌==◌, ◌≡◌, ◌≢◌, ◌↔◌, ◌⊎◌, refl, false, none, some, List, [], ◌∷◌, trim_space, arith,
  eq_iff, inl, inr, All, Option-cases, Bool-cases,
}
use platform_governance_oper.Api.{TelemetryProfile, SecurityBaseline}
use platform_governance_oper.PolicyWebhook.{
  Url, Parsers, check_endpoint, check_sampling_rate, validate_telemetry_profile_spec,
  check_excluded, validate_security_baseline_spec,
}
use platform_governance_oper.PolicyWebhook.Workload.{orelse_iff}

module _ {F : Type 0} (parsers : Parsers F) where
  -- The endpoint is an absolute URL with one of the two schemes.
  abbrev pub IsEndpoint : String → Type 0
  IsEndpoint endpoint =
      (url : Url) × (parsers.parse_request_uri endpoint ≡ some url)
      × ((url.scheme ≡ "http") ⊎ (url.scheme ≡ "https"))

  -- The rate parses, and compares neither below 0 nor above 1.
  abbrev pub IsRate : String → Type 0
  IsRate sampling_rate =
      (rate : F) × (parsers.parse_float sampling_rate ≡ some rate)
      × (parsers.float_lt rate parsers.float_zero ≡ false)
      × (parsers.float_lt parsers.float_one rate ≡ false)

  check_endpoint_iff :
      (endpoint : String)
      → (check_endpoint parsers endpoint ≡ none) ↔ ((endpoint ≡ "") ⊎ IsEndpoint endpoint)
  unfolding check_endpoint
  check_endpoint_iff endpoint =
      let empty = eq_iff endpoint "" in
      elim (Option-cases (parsers.parse_request_uri endpoint)) [
        | inl bad ↦ (
          λ h. inl (ground (arith, bad, empty)),
          λ h. elim h [ inl e ↦ ground (arith, empty) | inr (url, good, scheme) ↦ cc ],
        )
        | inr (url, good) ↦
            let plain = eq_iff url.scheme "http" in
            let secure = eq_iff url.scheme "https" in
            (
              λ h. elim (Bool-cases (endpoint == "")) [
                | inl e ↦ inl (empty.0 e)
                | inr given ↦ inr (url, good, ground (arith, good, given, plain, secure))
              ],
              λ h. elim h [
                | inl e ↦ ground (arith, empty)
                | inr (url', good', scheme) ↦
                    let same : url ≡ url' = cc in ground (arith, good, same, scheme, plain, secure)
              ],
            )
      ]

  check_sampling_rate_iff :
      (sampling_rate : String)
      → (check_sampling_rate parsers sampling_rate ≡ none)
        ↔ ((sampling_rate ≡ "") ⊎ IsRate sampling_rate)
  unfolding check_sampling_rate
  check_sampling_rate_iff sampling_rate =
      let empty = eq_iff sampling_rate "" in
      elim (Option-cases (parsers.parse_float sampling_rate)) [
        | inl bad ↦ (
          λ h. inl (ground (arith, bad, empty)),
          λ h. elim h [ inl e ↦ ground (arith, empty) | inr (rate, good, low, high) ↦ cc ],
        )
        | inr (rate, good) ↦ (
          λ h. elim (Bool-cases (sampling_rate == "")) [
            | inl e ↦ inl (empty.0 e)
            | inr given ↦ inr (rate, good, ground (arith, good, given), ground (arith, good, given))
          ],
          λ h. elim h [
            | inl e ↦ ground (arith, empty)
            | inr (rate', good', low, high) ↦
                let same : rate ≡ rate' = cc in ground (arith, good, same, low, high)
          ],
        )
      ]

  -- A profile is accepted exactly when its endpoint is empty or an http or https URL, and its
  -- sampling rate is empty or parses to a float that is neither below 0 nor above 1.
  pub validate_telemetry_profile_spec-none_iff :
      (obj : TelemetryProfile)
      → (validate_telemetry_profile_spec parsers obj ≡ none) ↔ (
          ((obj.spec.tracing_endpoint ≡ "") ⊎ IsEndpoint obj.spec.tracing_endpoint)
          × ((obj.spec.sampling_rate ≡ "") ⊎ IsRate obj.spec.sampling_rate))
  unfolding validate_telemetry_profile_spec
  validate_telemetry_profile_spec-none_iff obj =
      let (eto, efrom) = check_endpoint_iff obj.spec.tracing_endpoint in
      let (rto, rfrom) = check_sampling_rate_iff obj.spec.sampling_rate in
      (
        λ h. let (e, r) = (orelse_iff _ _).0 h in (eto e, rto r),
        λ (e, r). (orelse_iff _ _).1 (efrom e, rfrom r),
      )

check_excluded_iff :
    (ns : List String) → (check_excluded ns ≡ none) ↔ All (λ n. trim_space n ≢ "") ns
unfolding check_excluded
check_excluded_iff [] = (λ h. tt, λ h. refl)
check_excluded_iff (n ∷ ns) =
    let blank = eq_iff (trim_space n) "" in
    (
      λ h. ((λ e. ground (arith, blank)), (check_excluded_iff ns).0 (ground arith)),
      λ (k, h). ground (arith, blank, (check_excluded_iff ns).1 h),
    )

-- A baseline is accepted exactly when none of its excluded namespaces is blank.
pub validate_security_baseline_spec-none_iff :
    (obj : SecurityBaseline)
    → (validate_security_baseline_spec obj ≡ none)
      ↔ All (λ n. trim_space n ≢ "") obj.spec.excluded_namespaces
unfolding validate_security_baseline_spec
validate_security_baseline_spec-none_iff obj = check_excluded_iff obj.spec.excluded_namespaces
