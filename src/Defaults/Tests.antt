-- ===== src/Defaults/Tests.antt =====
-- Tests of `applyPolicyLabels` and `applyPolicyResources`.
use platform_governance_oper.Prelude.{◌≡◌, refl, true, lookup, insert, ok, Zip}
use platform_governance_oper.Defaults.{
  fill_defaults, fill_limits, fill_container, fill_containers, apply_policy_resources,
}
use platform_governance_oper.Defaults.Containers.{apply_policy_resources-ok, IsDone}
use platform_governance_oper.Samples.{pod, standard_policy, parse_quantity}

adds_resources : (apply_policy_resources parse_quantity pod standard_policy).1 ≡ ok true
unfolding apply_policy_resources fill_containers fill_container fill_limits fill_defaults lookup
    insert
adds_resources = refl

apply_policy_resources-ok_example :
    Zip
      (IsDone parse_quantity standard_policy)
      pod.containers
      (apply_policy_resources parse_quantity pod standard_policy).0.containers
apply_policy_resources-ok_example =
    apply_policy_resources-ok parse_quantity standard_policy pod true adds_resources
