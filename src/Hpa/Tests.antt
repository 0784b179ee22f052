-- ===== src/Hpa/Tests.antt =====
-- Tests of the HorizontalPodAutoscaler helpers.
use platform_governance_oper.Prelude.{
  String, ◌≤◌, ◌<>◌, len, ◌≡◌, ◌↔◌, refl, [], ◌∷◌, some, none, false, trim_space, trim_left,
  trim_right, is_space,
}
use platform_governance_oper.PolicyWebhook.{
  validate_workload_policy_spec, check_quantities, check_labels, check_horizontal_scaling,
}
use platform_governance_oper.Hpa.{
  Deployment, Hpa, managed_hpa_name, desired_hpa_for_deployment, deployment_hpa_enabled_annotation,
}
use platform_governance_oper.Hpa.Differs.{hpa_spec_drifted}
use platform_governance_oper.Hpa.Name.{len-managed_hpa_name, desired_hpa_for_deployment-collision}
use platform_governance_oper.Hpa.Drift.{hpa_spec_drifted-false_iff, spec_view}
use platform_governance_oper.Samples.{standard_policy, parse_quantity}

abbrev deployment : Deployment
deployment = record {
  name = "web";
  namespace = "team";
  annotations = some ((deployment_hpa_enabled_annotation, " true ") ∷ []);
}

names_hpa : managed_hpa_name "web" ≡ "web-pgo-hpa"
unfolding managed_hpa_name
names_hpa = refl

abbrev long_name : String
long_name = "a-deployment-whose-name-is-just-fifty-five-bytes-long-x"

long_name_is_55 : len long_name ≡ 55
long_name_is_55 = refl

shortens_name : managed_hpa_name (long_name <> "-blue") ≡ long_name <> "-pgo-hpa"
unfolding managed_hpa_name
shortens_name = refl

len-managed_hpa_name_example : len (managed_hpa_name long_name) ≤ 63
len-managed_hpa_name_example = len-managed_hpa_name long_name

abbrev web : String
web = "web"

abbrev blue : Deployment
blue = record deployment { name = long_name <> "-blue" }

abbrev green : Deployment
green = record deployment { name = long_name <> "-green" }

desired_hpa_for_deployment-collision_example :
    ((desired_hpa_for_deployment standard_policy blue).name
      ≡ (desired_hpa_for_deployment standard_policy green).name)
    × ((desired_hpa_for_deployment standard_policy blue).namespace
        ≡ (desired_hpa_for_deployment standard_policy green).namespace)
    × ((desired_hpa_for_deployment standard_policy blue).spec.scale_target_ref
          ≡ (desired_hpa_for_deployment standard_policy green).spec.scale_target_ref
        → ◌≡◌ {A = String} "-blue" "-green")
desired_hpa_for_deployment-collision_example =
    desired_hpa_for_deployment-collision long_name "-blue" "-green" standard_policy standard_policy
      blue green long_name_is_55 refl refl refl

abbrev desired : Hpa
desired = desired_hpa_for_deployment standard_policy deployment

hpa_spec_drifted-false_iff_example :
    (hpa_spec_drifted desired desired ≡ false) ↔ (spec_view desired.spec ≡ spec_view desired.spec)
hpa_spec_drifted-false_iff_example = hpa_spec_drifted-false_iff desired desired

accepts_standard : validate_workload_policy_spec parse_quantity standard_policy ≡ none
unfolding validate_workload_policy_spec check_quantities check_labels check_horizontal_scaling
    trim_space trim_left trim_right is_space
accepts_standard = refl
