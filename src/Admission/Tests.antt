-- ===== src/Admission/Tests.antt =====
-- Tests of the webhooks together.
use platform_governance_oper.Prelude.{
  ◌≡◌, refl, sym, ap, ◌∙◌, ℕ, none, some, Option, List, [], ◌∷◌, Result, err, Zip, insertion_sort,
  insert_in, lookup, insert,
}
use platform_governance_oper.Api.{WorkloadPolicy, TelemetryProfile}
use platform_governance_oper.Kube.{Pod, Error, not_found, Request, patched}
use platform_governance_oper.Defaults.{
  fill_defaults, fill_limits, fill_container, fill_containers, apply_policy_resources, fill_labels,
  apply_policy_labels,
}
use platform_governance_oper.Telemetry.{
  container_has_env_var, append_if_missing, inject_env, is_inactive, inject_containers,
  telemetry_round, apply_telemetry, otlp_endpoint, sampler_arg,
}
use platform_governance_oper.Validator
use platform_governance_oper.Mutator
use platform_governance_oper.Mutator.{mutate, policy_round, apply_policies}
use platform_governance_oper.PolicyWebhook.{
  validate_telemetry_profile_spec, check_endpoint, check_sampling_rate,
}
use platform_governance_oper.PolicyWebhook.Others.{IsEndpoint, IsRate}
use platform_governance_oper.Admission.Bare.{bare_pod, environments, mutate-bare_pod}
use platform_governance_oper.Admission.Verdict.{IsCodec, handle-after_patch}
use platform_governance_oper.Admission.Endpoints.{KeepsOrGets, mutate-KeepsOrGets}
use platform_governance_oper.Samples.{
  pod, root_pod, request, validator, mutator, profile, standard_policy, urgent_policy,
  parse_quantity, parsers,
}

abbrev policies : List WorkloadPolicy
policies = standard_policy ∷ urgent_policy ∷ []

abbrev profiles : List TelemetryProfile
profiles = profile ∷ []

mutate-bare_pod_example : bare_pod (mutate parse_quantity profiles policies pod).pod ≡ bare_pod pod
mutate-bare_pod_example = mutate-bare_pod parse_quantity profiles policies pod

abbrev decode_with :
    Option (Request (Pod ℕ) → Result Error (Pod ℕ)) → Request (Pod ℕ) → Result Error (Pod ℕ)
decode_with none req = err not_found
decode_with (some decode) req = decode req

codec : IsCodec mutator validator
codec = record {
  same = refl;
  reads_back = λ decode injected req p written.
      (p, ap (λ d. decode_with d req) (sym injected) ∙ sym written, refl);
}

-- What the mutating webhook makes of the pod without a security context.
mutated_root_pod : Pod ℕ
mutated_root_pod =
    (mutate parse_quantity (Mutator.sort_telemetry_profiles_by_priority mutator profiles)
      (Mutator.sort_workload_policies_by_priority mutator policies) root_pod).pod

patches_root_pod : (Mutator.handle mutator (request root_pod)).0 ≡ patched root_pod mutated_root_pod
unfolding Mutator.handle Mutator.respond mutated_root_pod mutate
    Mutator.sort_workload_policies_by_priority Mutator.sort_telemetry_profiles_by_priority
    insertion_sort insert_in apply_policies policy_round apply_policy_labels fill_labels
    apply_policy_resources fill_containers fill_container fill_limits fill_defaults apply_telemetry
    telemetry_round inject_containers inject_env append_if_missing container_has_env_var is_inactive
    lookup insert
patches_root_pod = refl

handle-after_patch_example :
    Validator.handle validator (request mutated_root_pod)
    ≡ Validator.handle validator (request root_pod)
handle-after_patch_example =
    handle-after_patch mutator validator codec (request root_pod) root_pod mutated_root_pod
      patches_root_pod

accepts_profile : validate_telemetry_profile_spec parsers profile ≡ none
unfolding validate_telemetry_profile_spec check_endpoint check_sampling_rate
accepts_profile = refl

mutate-KeepsOrGets_example :
    Zip
      (KeepsOrGets (IsEndpoint parsers) otlp_endpoint)
      (environments pod)
      (environments (mutate parse_quantity profiles policies pod).pod)
    × Zip
        (KeepsOrGets (IsRate parsers) sampler_arg)
        (environments pod)
        (environments (mutate parse_quantity profiles policies pod).pod)
mutate-KeepsOrGets_example =
    mutate-KeepsOrGets parsers parse_quantity profiles policies pod (accepts_profile, tt)
