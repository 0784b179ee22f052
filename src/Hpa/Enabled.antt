-- ===== src/Hpa/Enabled.antt =====
-- Effective scaling values, the opt-in annotation, and the desired autoscaler.
use platform_governance_oper.Prelude.{
  String, ◌≡◌, ◌⊎◌, refl, subst, Bool, true, Option, none, some, arith, Option-cases, inl, inr, ok,
  err, lookup, entries, trim_space, parse_bool, lookup-insert_self,
}
use platform_governance_oper.Api.{HorizontalScalingPolicy, WorkloadPolicy}
use platform_governance_oper.Kube.{invalid_hpa_annotation}
use platform_governance_oper.PolicyWebhook.{default_workload_policy, validate_workload_policy_spec}
use platform_governance_oper.PolicyWebhook.Workload.{
  IsInRange, ScalingInRange, validate_workload_policy_spec-none_iff,
}
use platform_governance_oper.Hpa.{
  Deployment, Hpa, effective_horizontal_scaling_policy, hpa_enabled_for_deployment,
  desired_hpa_for_deployment, deployment_hpa_enabled_annotation, is_managed_hpa,
  ensure_managed_hpa_metadata, managed_hpa_label_key, managed_hpa_label_value,
}

-- The value of the opt-in annotation.
abbrev pub opt_in : Deployment → Option String
opt_in d = lookup deployment_hpa_enabled_annotation (entries d.annotations)

pub effective_of_in_range :
    (h : HorizontalScalingPolicy) → IsInRange h → effective_horizontal_scaling_policy (some h) ≡ h
unfolding effective_horizontal_scaling_policy
effective_of_in_range h r = ground (arith, r.min_pos, r.max_pos, r.cpu_pos)

-- The controller reads the same scaling from a policy whether or not the defaulting webhook ran on
-- it.
effective-default_workload_policy :
    (policy : WorkloadPolicy)
    → effective_horizontal_scaling_policy (default_workload_policy policy).spec.horizontal_scaling
      ≡ effective_horizontal_scaling_policy policy.spec.horizontal_scaling
unfolding effective_horizontal_scaling_policy default_workload_policy
effective-default_workload_policy policy = elim (Option-cases policy.spec.horizontal_scaling) [
  | inl unset ↦ ground (arith, unset)
  | inr (h, given) ↦ ground (arith, given)
]

-- On a policy with horizontal scaling that the validator accepts, the controller reads the values
-- as they are, they are in range, and the defaulting webhook changes none of them.
effective_of_valid :
    {Q : Type 0} (parse_quantity : String → Option Q) (policy : WorkloadPolicy)
    (h : HorizontalScalingPolicy)
    → policy.spec.horizontal_scaling ≡ some h
    → validate_workload_policy_spec parse_quantity policy ≡ none
    → (effective_horizontal_scaling_policy policy.spec.horizontal_scaling ≡ h)
      × IsInRange h
      × ((default_workload_policy policy).spec.horizontal_scaling ≡ some h)
unfolding effective_horizontal_scaling_policy default_workload_policy
effective_of_valid parse_quantity policy h given valid =
    let in_range : IsInRange h =
      subst ScalingInRange given
        ((validate_workload_policy_spec-none_iff parse_quantity policy).0 valid).scaling in
    let same = effective_of_in_range h in_range in
    (ground (arith, given, same), in_range, ground (arith, given, same))

-- Whether a Deployment gets an autoscaler: without the annotation the policy's default decides;
-- with it, its trimmed value does, and a value that is no Boolean is an error that names the
-- Deployment and the value.
hpa_enabled_for_deployment_cases :
    (d : Deployment) (hpa_policy : Option HorizontalScalingPolicy)
    → ((opt_in d ≡ none)
        × (hpa_enabled_for_deployment d hpa_policy
            ≡ ok (effective_horizontal_scaling_policy hpa_policy).enabled_by_default))
      ⊎ (((raw : String) × (b : Bool) × (opt_in d ≡ some raw)
            × (parse_bool (trim_space raw) ≡ some b)
            × (hpa_enabled_for_deployment d hpa_policy ≡ ok b))
          ⊎ ((raw : String) × (opt_in d ≡ some raw)
              × (parse_bool (trim_space raw) ≡ none)
              × (hpa_enabled_for_deployment d hpa_policy
                  ≡ err (invalid_hpa_annotation d.namespace d.name raw))))
unfolding hpa_enabled_for_deployment
hpa_enabled_for_deployment_cases d hpa_policy = elim (Option-cases (opt_in d)) [
  | inl unset ↦ inl (unset, ground arith)
  | inr (raw, set) ↦ elim (Option-cases (parse_bool (trim_space raw))) [
    | inl bad ↦ inr (inr (raw, set, bad, ground arith))
    | inr (b, good) ↦ inr (inl (raw, b, set, good, ground arith))
  ]
]

-- What the operator creates, and what it leaves after an update, it recognises as its own.
pub desired-is_managed :
    (policy : WorkloadPolicy) (d : Deployment)
    → is_managed_hpa (some (desired_hpa_for_deployment policy d)) ≡ true
unfolding is_managed_hpa desired_hpa_for_deployment lookup
desired-is_managed policy d = refl

pub ensured-is_managed :
    (hpa : Hpa) (name : String)
    → is_managed_hpa (some (ensure_managed_hpa_metadata hpa name)) ≡ true
unfolding is_managed_hpa ensure_managed_hpa_metadata
ensured-is_managed hpa name =
    ground
      (arith, lookup-insert_self managed_hpa_label_key managed_hpa_label_value (entries hpa.labels))
