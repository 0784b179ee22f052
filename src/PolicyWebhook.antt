-- ===== src/PolicyWebhook.antt =====
-- internal/webhook/v1alpha1: the defaulting and validating webhooks for the three custom
-- resources. `resource.ParseQuantity`, `url.ParseRequestURI` and `strconv.ParseFloat`, with the
-- float type of the last, are parameters. An error is the `fmt.Errorf` call that makes it.
pub mod Workload
pub mod Others
mod Tests
use platform_governance_oper.Prelude.{
  String, ◌==◌, Bool, true, false, ◌&&◌, ◌||◌, Option, none, some, List, [], ◌∷◌, if◌then◌else◌,
  Entries, entries, trim_space, ℤ, pos, ltb_ℤ, eqb_ℤ,
}
use platform_governance_oper.Api.{
  HorizontalScalingPolicy, WorkloadPolicySpec, WorkloadPolicy, TelemetryProfile, SecurityBaseline,
  default_hpa_min_replicas, default_hpa_max_replicas, default_hpa_target_cpu,
}

pub data ValidationError : Type 0 where
  invalid_requests_quantity : (resource value : String) → ValidationError
  invalid_limits_quantity : (resource value : String) → ValidationError
  empty_label_key : ValidationError
  empty_label_value : (key : String) → ValidationError
  min_replicas_too_small : ValidationError
  max_replicas_too_small : ValidationError
  max_replicas_below_min : ValidationError
  target_cpu_out_of_range : ValidationError
  invalid_tracing_endpoint : String → ValidationError
  unsupported_scheme : String → ValidationError
  invalid_sampling_rate : String → ValidationError
  sampling_rate_out_of_range : ValidationError
  empty_excluded_namespace : ValidationError

-- `if err != nil { return err }`, before what follows.
infixr 30 ◌orelse◌
abbrev pub ◌orelse◌ : Option ValidationError → Option ValidationError → Option ValidationError
none orelse rest = rest
some e orelse rest = some e

module _ {Q : Type 0} (parse_quantity : String → Option Q) where
  -- A loop over quantities, with the error that it makes.
  unfoldable pub check_quantities :
      (String → String → ValidationError) → Entries String → Option ValidationError
  check_quantities failed [] = none
  check_quantities failed ((name, value) ∷ rest) = elim (parse_quantity value) [
    | none ↦ some (failed name value)
    | some _ ↦ check_quantities failed rest
  ]

-- The loop over the mandatory labels.
unfoldable pub check_labels : Entries String → Option ValidationError
check_labels [] = none
check_labels ((key, value) ∷ rest) =
    let later = check_labels rest in
    if trim_space key == ""
    then some empty_label_key
    else if trim_space value == ""
    then some (empty_label_value key)
    else later

unfoldable pub check_horizontal_scaling : HorizontalScalingPolicy → Option ValidationError
check_horizontal_scaling h =
    if ltb_ℤ h.min_replicas (pos 1)
    then some min_replicas_too_small
    else if ltb_ℤ h.max_replicas (pos 1)
    then some max_replicas_too_small
    else if ltb_ℤ h.max_replicas h.min_replicas
    then some max_replicas_below_min
    else if ltb_ℤ h.target_cpu_utilization_percentage (pos 1)
        || ltb_ℤ (pos 100) h.target_cpu_utilization_percentage
    then some target_cpu_out_of_range
    else none

-- `if p != nil { … }`
abbrev pub if_present {ℓ} :
    {A : Type ℓ} → Option A → (A → Option ValidationError) → Option ValidationError
if_present none f = none
if_present (some a) f = f a

-- `validateWorkloadPolicySpec`
unfoldable pub validate_workload_policy_spec :
    {Q : Type 0} → (String → Option Q) → WorkloadPolicy → Option ValidationError
validate_workload_policy_spec parse_quantity obj =
    check_quantities parse_quantity invalid_requests_quantity (entries obj.spec.default_requests)
    orelse check_quantities parse_quantity invalid_limits_quantity (entries obj.spec.default_limits)
    orelse check_labels (entries obj.spec.mandatory_labels)
    orelse if_present obj.spec.horizontal_scaling check_horizontal_scaling

-- `if x == 0 { x = d }`
abbrev pub or_default : ℤ → ℤ → ℤ
or_default d x = if eqb_ℤ x (pos 0) then d else x

abbrev pub fill_zeros : HorizontalScalingPolicy → HorizontalScalingPolicy
fill_zeros h = record h {
  min_replicas = or_default default_hpa_min_replicas h.min_replicas;
  max_replicas = or_default default_hpa_max_replicas h.max_replicas;
  target_cpu_utilization_percentage =
      or_default default_hpa_target_cpu h.target_cpu_utilization_percentage;
}

-- `WorkloadPolicyCustomDefaulter.Default`
unfoldable pub default_workload_policy : WorkloadPolicy → WorkloadPolicy
default_workload_policy obj = elim obj.spec.horizontal_scaling [
  | none ↦ obj
  | some h ↦ record obj { spec = record obj.spec { horizontal_scaling = some (fill_zeros h) } }
]

-- `ValidateCreate`, `ValidateUpdate` and `ValidateDelete` of `WorkloadPolicyCustomValidator`; they
-- give no warnings.
pub data Operation (A : Type 0) : Type 0 where
  create : A → Operation A
  update : (old new : A) → Operation A
  delete : A → Operation A

-- What each validator does with an operation.
abbrev pub validate_operation :
    {A : Type 0} → (A → Option ValidationError) → Operation A → Option ValidationError
validate_operation validate (create obj) = validate obj
validate_operation validate (update old new) = validate new
validate_operation validate (delete obj) = none

unfoldable pub validate_workload_policy :
    {Q : Type 0} → (String → Option Q) → Operation WorkloadPolicy → Option ValidationError
validate_workload_policy parse_quantity =
    validate_operation (validate_workload_policy_spec parse_quantity)

-- A parsed URL, of which the code reads the scheme.
pub record Url : Type 0 where
  pub scheme : String

-- `float64` with its order, and the parsers of the standard library.
pub record Parsers (F : Type 0) : Type 0 where
  pub parse_request_uri : String → Option Url
  pub parse_float : String → Option F
  pub float_lt : F → F → Bool
  pub float_zero : F
  pub float_one : F

module _ {F : Type 0} (parsers : Parsers F) where
  unfoldable pub check_endpoint : String → Option ValidationError
  check_endpoint endpoint =
      if endpoint == "" then none else (elim (parsers.parse_request_uri endpoint) [
        | none ↦ some (invalid_tracing_endpoint endpoint)
        | some url ↦
            if url.scheme == "http" || url.scheme == "https"
            then none
            else some (unsupported_scheme url.scheme)
      ])

  unfoldable pub check_sampling_rate : String → Option ValidationError
  check_sampling_rate sampling_rate =
      if sampling_rate == "" then none else (elim (parsers.parse_float sampling_rate) [
        | none ↦ some (invalid_sampling_rate sampling_rate)
        | some rate ↦
            if parsers.float_lt rate parsers.float_zero || parsers.float_lt parsers.float_one rate
            then some sampling_rate_out_of_range
            else none
      ])

  -- `validateTelemetryProfileSpec`
  unfoldable pub validate_telemetry_profile_spec : TelemetryProfile → Option ValidationError
  validate_telemetry_profile_spec obj =
      check_endpoint obj.spec.tracing_endpoint orelse check_sampling_rate obj.spec.sampling_rate

  pub validate_telemetry_profile : Operation TelemetryProfile → Option ValidationError
  validate_telemetry_profile = validate_operation validate_telemetry_profile_spec

-- `TelemetryProfileCustomDefaulter.Default` and `SecurityBaselineCustomDefaulter.Default` only log.
pub default_telemetry_profile : TelemetryProfile → TelemetryProfile
default_telemetry_profile obj = obj

pub default_security_baseline : SecurityBaseline → SecurityBaseline
default_security_baseline obj = obj

pub check_excluded : List String → Option ValidationError
check_excluded [] = none
check_excluded (namespace ∷ rest) =
    let later = check_excluded rest in
    if trim_space namespace == "" then some empty_excluded_namespace else later

-- `validateSecurityBaselineSpec`
pub validate_security_baseline_spec : SecurityBaseline → Option ValidationError
validate_security_baseline_spec obj = check_excluded obj.spec.excluded_namespaces

pub validate_security_baseline : Operation SecurityBaseline → Option ValidationError
validate_security_baseline = validate_operation validate_security_baseline_spec
