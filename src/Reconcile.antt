-- ===== src/Reconcile.antt =====
-- internal/controller/workloadpolicy_controller.go: which policy manages autoscalers, and the loop
-- that does it. `W` is the state of the API
-- server; a call that writes gives its error, if any, with the state after it. Go's `error` result
-- is an option.
pub mod Steps
pub mod Governed
pub mod Rounds
pub mod Converge
pub mod Beats
pub mod Highest
pub mod Status
pub mod Whole
pub mod Keeps
pub mod Rest
pub mod Specs
pub mod Requests
pub mod Frames
pub mod Lasting
pub mod Quiet
pub mod Ends
pub mod Conflict
pub mod Again
pub mod Memory
mod Tests
use platform_governance_oper.Prelude.{
  String, ◌==◌, Bool, true, false, not, ◌&&◌, Option, none, some, List, [], ◌∷◌, if◌then◌else◌,
  Result, ok, err, ltb_ℤ, eqb_ℤ, str_ltb,
}
use platform_governance_oper.Api.{
  ObjectMeta, Condition, HorizontalScalingPolicy, WorkloadPolicy, TelemetryProfile,
  SecurityBaseline,
}
use platform_governance_oper.Kube.{Error, not_found, hpa_not_managed, Event}
use platform_governance_oper.Hpa.{
  Deployment, Hpa, managed_hpa_name, hpa_enabled_for_deployment, desired_hpa_for_deployment,
  is_managed_hpa, ensure_managed_hpa_metadata,
}
use platform_governance_oper.Hpa.Differs.{hpa_spec_drifted}

-- `types.NamespacedName`: the namespace and the name.
abbrev pub NamespacedName : Type 0
NamespacedName = String × String

-- `apierrors.IsNotFound`
abbrev pub is_not_found : Error → Bool
is_not_found not_found = true
is_not_found _ = false

-- `client.IgnoreNotFound`
abbrev pub ignore_not_found : Error → Option Error
ignore_not_found e = if is_not_found e then none else some e

-- The calls of the WorkloadPolicy controller to its client, and `meta.SetStatusCondition`.
pub record Client (W : Type 0) : Type 0 where
  pub get_policy : NamespacedName → W → Result Error WorkloadPolicy
  pub list_policies : String → W → Result Error (List WorkloadPolicy)
  pub list_deployments : String → W → Result Error (List Deployment)
  pub get_hpa : NamespacedName → W → Result Error Hpa
  pub create_hpa : Hpa → W → Option Error × W
  pub update_hpa : Hpa → W → Option Error × W
  pub delete_hpa : Hpa → W → Option Error × W
  pub update_policy_status : WorkloadPolicy → W → Option Error × W
  pub set_status_condition : List Condition → Condition → List Condition × Bool

-- Of two candidates with horizontal scaling, the later one wins by a higher priority, or by a
-- smaller name at the same priority.
unfoldable pub beats : WorkloadPolicy → WorkloadPolicy → Bool
beats candidate highest =
    if ltb_ℤ highest.spec.priority candidate.spec.priority
    then true
    else eqb_ℤ candidate.spec.priority highest.spec.priority
      && str_ltb candidate.meta.name highest.meta.name

abbrev pub scales : WorkloadPolicy → Bool
scales policy = elim policy.spec.horizontal_scaling [ none ↦ false | some _ ↦ true ]

-- The loop body of `isHighestPriorityPolicy`: `none` is an unset `highest`.
unfoldable pub consider : WorkloadPolicy → Option WorkloadPolicy → Option WorkloadPolicy
unfolding beats
consider candidate none = if scales candidate then some candidate else none
consider candidate (some highest) =
    if scales candidate && beats candidate highest then some candidate else some highest

-- Its loop.
unfoldable pub highest_of : List WorkloadPolicy → Option WorkloadPolicy → Option WorkloadPolicy
highest_of [] highest = highest
highest_of (candidate ∷ policies) highest = highest_of policies (consider candidate highest)

module _ {W : Type 0} (client : Client W) where
  -- `isHighestPriorityPolicy`
  unfoldable pub is_highest_priority_policy : WorkloadPolicy → W → Result Error Bool
  is_highest_priority_policy policy w = elim (client.list_policies policy.meta.namespace w) [
    | err e ↦ err e
    | ok policies ↦ elim (highest_of policies none) [
      | none ↦ ok false
      | some highest ↦ ok (highest.meta.name == policy.meta.name)
    ]
  ]

  -- What is not in order about a `Delete` that gave this error.
  abbrev pub delete_error : Option Error → Option Error
  delete_error none = none
  delete_error (some e) = ignore_not_found e

  -- The autoscaler that an update writes.
  abbrev pub retargeted : WorkloadPolicy → Deployment → Hpa → Hpa
  retargeted policy deployment existing =
      ensure_managed_hpa_metadata
        (record existing { spec = (desired_hpa_for_deployment policy deployment).spec })
        policy.meta.name

  -- The rest of the loop body of `reconcileDeploymentHPAs` where the autoscaler exists.
  pub reconcile_existing : WorkloadPolicy → Deployment → Bool → Hpa → W → Option Error × W
  reconcile_existing policy deployment enabled existing w =
      if enabled
      then if is_managed_hpa (some existing)
        then if hpa_spec_drifted existing (desired_hpa_for_deployment policy deployment)
          then client.update_hpa (retargeted policy deployment existing) w
          else (none, w)
        else (some (hpa_not_managed existing.namespace existing.name), w)
      else if is_managed_hpa (some existing)
      then (let (e, w') = client.delete_hpa existing w in (delete_error e, w'))
      else (none, w)

  -- The loop body of `reconcileDeploymentHPAs`; no error is `continue`.
  pub reconcile_deployment : WorkloadPolicy → Deployment → W → Option Error × W
  reconcile_deployment policy deployment w =
      elim (hpa_enabled_for_deployment deployment policy.spec.horizontal_scaling) [
        | err e ↦ (some e, w)
        | ok enabled ↦
            elim (client.get_hpa (deployment.namespace, managed_hpa_name deployment.name) w) [
              | err e ↦
                  if is_not_found e
                  then if enabled
                    then client.create_hpa (desired_hpa_for_deployment policy deployment) w
                    else (none, w)
                  else (some e, w)
              | ok existing ↦ reconcile_existing policy deployment enabled existing w
            ]
      ]

  -- The loop of `reconcileDeploymentHPAs`.
  unfoldable pub reconcile_deployments : WorkloadPolicy → List Deployment → W → Option Error × W
  reconcile_deployments policy [] w = (none, w)
  reconcile_deployments policy (deployment ∷ deployments) w =
      let (e, w') = reconcile_deployment policy deployment w in
      elim e [ some e ↦ (some e, w') | none ↦ reconcile_deployments policy deployments w' ]

  -- `reconcileDeploymentHPAs`
  unfoldable pub reconcile_deployment_hpas : WorkloadPolicy → W → Option Error × W
  reconcile_deployment_hpas policy w = elim (client.list_deployments policy.meta.namespace w) [
    | err e ↦ (some e, w)
    | ok deployments ↦ reconcile_deployments policy deployments w
  ]
