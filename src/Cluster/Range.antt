-- ===== src/Cluster/Range.antt =====
-- The values that the operator gives to the autoscalers it manages.
use platform_governance_oper.Prelude.{
  String, ◌≡◌, sym, ap, ◌∙◌, subst, inl, inr, true, Option, none, some, All, arith, ℤ, pos, ◌≤ℤ◌,
}
use platform_governance_oper.Api.{HorizontalScalingPolicy, WorkloadPolicy}
use platform_governance_oper.Kube.{Error}
use platform_governance_oper.PolicyWebhook.Workload.{IsInRange, ScalingInRange, IsAdmissible}
use platform_governance_oper.Hpa.{
  Deployment, Hpa, is_managed_hpa, desired_hpa_for_deployment, effective_horizontal_scaling_policy,
}
use platform_governance_oper.Hpa.Drift.{MetricView, SpecView, spec_view}
use platform_governance_oper.Hpa.Enabled.{effective_of_in_range}
use platform_governance_oper.Reconcile.{NamespacedName, Client, retargeted}
use platform_governance_oper.Reconcile.Steps.{IsSavedAs, reconcile_deployment-Step}
use platform_governance_oper.Reconcile.Steps
use platform_governance_oper.Reconcile.Governed.{retargeted_view}
use platform_governance_oper.Cluster.{IsAtomic}

-- Utilization targets from 1 to 100.
abbrev pub TargetInRange : Option (String × String × ℤ) → Type 0
TargetInRange none = Unit
TargetInRange (some (_, _, utilization)) = (pos 1 ≤ℤ utilization) × (utilization ≤ℤ pos 100)

-- An autoscaler with 1 ≤ min ≤ max replicas and such targets.
pub record ViewInRange (view : SpecView) : Type 0 where
  pub min_pos : pos 1 ≤ℤ view.min_replicas
  pub ordered : view.min_replicas ≤ℤ view.max_replicas
  pub targets : All (λ (m : MetricView). TargetInRange m.resource) view.metrics

effective-IsInRange :
    (scaling : Option HorizontalScalingPolicy)
    → ScalingInRange scaling
    → IsInRange (effective_horizontal_scaling_policy scaling)
unfolding effective_horizontal_scaling_policy
effective-IsInRange none r = omega arith
effective-IsInRange (some h) r = subst IsInRange (sym (effective_of_in_range h r)) r

desired-ViewInRange :
    (policy : WorkloadPolicy) (d : Deployment)
    → ScalingInRange policy.spec.horizontal_scaling
    → ViewInRange (spec_view (desired_hpa_for_deployment policy d).spec)
unfolding desired_hpa_for_deployment
desired-ViewInRange policy d r =
    let e = effective-IsInRange policy.spec.horizontal_scaling r in
    record { min_pos = e.min_pos; ordered = e.ordered; targets = ((e.cpu_pos, e.cpu_max), tt) }

module _ {W Q : Type 0} (client : Client W) (stored : W → NamespacedName → Option Hpa)
    (parse_quantity : String → Option Q) where
  -- Every stored autoscaler that is labelled as managed is in range.
  abbrev pub ManagedInRange : W → Type 0
  ManagedInRange w =
      (k : NamespacedName) (h : Hpa)
      → stored w k ≡ some h
      → is_managed_hpa (some h) ≡ true
      → ViewInRange (spec_view h.spec)

  module _ (atomic : IsAtomic client stored parse_quantity) where
    ViewInRange-same :
        (w w' : W) (k : NamespacedName) (h : Hpa)
        → stored w' k ≡ stored w k
        → ManagedInRange w
        → stored w' k ≡ some h
        → is_managed_hpa (some h) ≡ true
        → ViewInRange (spec_view h.spec)
    ViewInRange-same w w' k h same m here managed = m k h (sym same ∙ here) managed

    ViewInRange-saved :
        (w' : W) (k : NamespacedName) (hpa saved h : Hpa)
        → ViewInRange (spec_view hpa.spec)
        → stored w' k ≡ some saved
        → IsSavedAs hpa saved
        → stored w' k ≡ some h
        → ViewInRange (spec_view h.spec)
    ViewInRange-saved w' k hpa saved h r there s here =
        let same : saved ≡ h = cc (there, here) in
        subst (λ (x : Hpa). ViewInRange (spec_view x.spec)) same (subst ViewInRange (sym s.view) r)

    -- A round on behalf of an admissible policy keeps the managed autoscalers in range.
    pub Step-ManagedInRange :
        (policy : WorkloadPolicy) (d : Deployment) (w : W) (r : Option Error × W)
        → IsAdmissible parse_quantity policy
        → ManagedInRange w
        → Steps.Step client policy d w r
        → ManagedInRange r.1
    Step-ManagedInRange policy d w r a m (Steps.failed e is) =
        subst ManagedInRange (sym (ap (λ (r : Option Error × W). r.1) is)) m
    Step-ManagedInRange policy d w r a m (Steps.kept_absent e off read gone is) =
        subst ManagedInRange (sym (ap (λ (r : Option Error × W). r.1) is)) m
    Step-ManagedInRange policy d w r a m (Steps.kept_foreign h off read foreign is) =
        subst ManagedInRange (sym (ap (λ (r : Option Error × W). r.1) is)) m
    Step-ManagedInRange policy d w r a m (Steps.kept h on read managed same is) =
        subst ManagedInRange (sym (ap (λ (r : Option Error × W). r.1) is)) m
    Step-ManagedInRange policy d w r a m (Steps.deleted h off read managed is) =
        subst ManagedInRange (sym (ap (λ (r : Option Error × W). r.1) is)) (λ k x here labelled.
          elim (atomic.delete_atomic w h k) [
            | inl same ↦ ViewInRange-same w (client.delete_hpa h w).1 k x same m here labelled
            | inr gone ↦ absurd (cc (gone, here))
          ])
    Step-ManagedInRange policy d w r a m (Steps.created e on read gone is) =
        let hpa = desired_hpa_for_deployment policy d in
        subst ManagedInRange (sym (ap (λ (r : Option Error × W). r.1) is)) (λ k x here labelled.
          elim (atomic.create_atomic w hpa k) [
            | inl same ↦ ViewInRange-same w (client.create_hpa hpa w).1 k x same m here labelled
            | inr (saved, there, s) ↦
                ViewInRange-saved (client.create_hpa hpa w).1 k hpa saved x
                  (desired-ViewInRange policy d a.scaling) there s here
          ])
    Step-ManagedInRange policy d w r a m (Steps.updated h on read managed drifted is) =
        let hpa = retargeted client policy d h in
        subst ManagedInRange (sym (ap (λ (r : Option Error × W). r.1) is)) (λ k x here labelled.
          elim (atomic.update_atomic w hpa k) [
            | inl same ↦ ViewInRange-same w (client.update_hpa hpa w).1 k x same m here labelled
            | inr (saved, there, s) ↦
                ViewInRange-saved (client.update_hpa hpa w).1 k hpa saved x
                  (subst ViewInRange (sym (retargeted_view client policy d h))
                    (desired-ViewInRange policy d a.scaling))
                  there s here
          ])
