-- ===== src/Cluster/Reapply.antt =====
-- A policy that is applied again as it is stored.
use platform_governance_oper.Prelude.{
  String, ◌≡◌, refl, sym, ap, subst, inl, inr, none, some, Option, List, ◌∷◌, ◌++◌, arith, All,
  Option-cases,
}
use mathlib.Core.Option
use platform_governance_oper.Api.{HorizontalScalingPolicy, WorkloadPolicy}
use platform_governance_oper.PolicyWebhook.{
  validate_workload_policy, default_workload_policy, update,
}
use platform_governance_oper.PolicyWebhook.Workload.{
  IsAdmissible, ScalingInRange, IsInRange, validate_workload_policy_spec-none_iff,
}
use platform_governance_oper.Hpa.{Hpa, effective_horizontal_scaling_policy}
use platform_governance_oper.Hpa.Enabled.{effective_of_in_range}
use platform_governance_oper.Reconcile.{NamespacedName, Client}
use platform_governance_oper.Cluster.{Cluster, IsAtomic, Reach}
use platform_governance_oper.Cluster.Sound.{IsSound, Reach-IsSound, All-at}

-- What the controller makes of a policy's horizontal scaling, if it has one.
abbrev pub effective : Option HorizontalScalingPolicy → Option HorizontalScalingPolicy
effective = Option.map (λ h. effective_horizontal_scaling_policy (some h))

module _ {Q : Type 0} (parse_quantity : String → Option Q) where
  default_of_admissible :
      (policy : WorkloadPolicy)
      → IsAdmissible parse_quantity policy
      → (default_workload_policy policy ≡ policy)
        × (effective policy.spec.horizontal_scaling ≡ policy.spec.horizontal_scaling)
  unfolding default_workload_policy effective_horizontal_scaling_policy
  default_of_admissible policy a = elim (Option-cases policy.spec.horizontal_scaling) [
    | inl unset ↦ (ground (arith, unset), rw unset refl)
    | inr (h, given) ↦
        let in_range : IsInRange h = subst ScalingInRange given a.scaling in
        let same = effective_of_in_range h in_range in
        (ground (arith, given, same), rw given (ap some same))
  ]

module _ {W Q : Type 0} (client : Client W) (stored : W → NamespacedName → Option Hpa)
    (parse_quantity : String → Option Q) where
  -- In a cluster that is reached from a sound one, applying a stored policy again, as it is stored,
  -- is admitted by the validating webhook and changes nothing: defaulting leaves the policy as it is,
  -- as the controller does when it reads its horizontal scaling. A write, failed or not, must leave
  -- each autoscaler alone or store its object there.
  pub Reach-reapply :
      (atomic : IsAtomic client stored parse_quantity) {c c' : Cluster W}
      → IsSound client stored parse_quantity c
      → Reach client stored parse_quantity c c'
      → (before after : List WorkloadPolicy) (policy : WorkloadPolicy)
      → c'.policies ≡ before ++ policy ∷ after
      → (validate_workload_policy parse_quantity (update policy (default_workload_policy policy))
          ≡ none)
        × (default_workload_policy policy ≡ policy)
        × (effective policy.spec.horizontal_scaling ≡ policy.spec.horizontal_scaling)
  unfolding validate_workload_policy
  Reach-reapply atomic {c} {c'} sound reach before after policy at =
      let here = Reach-IsSound client stored parse_quantity atomic sound reach in
      let admissible =
        All-at (IsAdmissible parse_quantity) before policy after
          (subst (All (IsAdmissible parse_quantity)) at here.policies) in
      let (same, read) = default_of_admissible parse_quantity policy admissible in
      let valid =
        (validate_workload_policy_spec-none_iff parse_quantity (default_workload_policy policy)).1
          (subst (IsAdmissible parse_quantity) (sym same) admissible) in
      (valid, same, read)
