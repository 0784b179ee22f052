-- ===== src/PolicyWebhook/Tests.antt =====
-- Tests of the webhooks of the custom resources.
use platform_governance_oper.Prelude.{
  ◌≡◌, ◌≢◌, ◌↔◌, ◌⊎◌, refl, [], ◌∷◌, some, none, pos, trim_space, All, trim_left, trim_right,
  is_space,
}
use platform_governance_oper.Api.{HorizontalScalingPolicy}
use platform_governance_oper.PolicyWebhook.{
  validate_workload_policy, validate_workload_policy_spec, check_quantities, check_labels,
  check_horizontal_scaling, create, validate_telemetry_profile_spec, check_endpoint,
  check_sampling_rate, validate_security_baseline_spec, min_replicas_too_small,
}
use platform_governance_oper.PolicyWebhook.Workload.{
  IsAdmissible, validate_workload_policy_spec-none_iff,
}
use platform_governance_oper.PolicyWebhook.Others.{
  IsEndpoint, IsRate, validate_telemetry_profile_spec-none_iff,
  validate_security_baseline_spec-none_iff,
}
use platform_governance_oper.Samples.{
  standard_policy, profile, baseline, parse_quantity, parsers, scaling,
}

abbrev zeros : HorizontalScalingPolicy
zeros = record scaling {
  min_replicas = pos 0;
  max_replicas = pos 0;
  target_cpu_utilization_percentage = pos 0;
}

refuses_zeros : check_horizontal_scaling zeros ≡ some min_replicas_too_small
unfolding check_horizontal_scaling
refuses_zeros = refl

validate_workload_policy_spec-none_iff_example :
    (validate_workload_policy_spec parse_quantity standard_policy ≡ none)
    ↔ IsAdmissible parse_quantity standard_policy
validate_workload_policy_spec-none_iff_example =
    validate_workload_policy_spec-none_iff parse_quantity standard_policy

accepts_standard : validate_workload_policy parse_quantity (create standard_policy) ≡ none
unfolding validate_workload_policy validate_workload_policy_spec check_quantities check_labels
    check_horizontal_scaling trim_space trim_left trim_right is_space
accepts_standard = refl

accepts_profile : validate_telemetry_profile_spec parsers profile ≡ none
unfolding validate_telemetry_profile_spec check_endpoint check_sampling_rate
accepts_profile = refl

validate_telemetry_profile_spec-none_iff_example :
    (validate_telemetry_profile_spec parsers profile ≡ none) ↔ (
      ((profile.spec.tracing_endpoint ≡ "") ⊎ IsEndpoint parsers "http://otel:4317")
      × ((profile.spec.sampling_rate ≡ "") ⊎ IsRate parsers "0.5"))
validate_telemetry_profile_spec-none_iff_example =
    validate_telemetry_profile_spec-none_iff parsers profile

validate_security_baseline_spec-none_iff_example :
    (validate_security_baseline_spec baseline ≡ none)
    ↔ All (λ n. trim_space n ≢ "") ("kube-system" ∷ [])
validate_security_baseline_spec-none_iff_example = validate_security_baseline_spec-none_iff baseline
