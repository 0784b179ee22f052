-- ===== src/Cluster.antt =====
-- The operator in a cluster: users who change policies through the webhooks of
-- internal/webhook/v1alpha1, reconciles of internal/controller/workloadpolicy_controller.go that run
-- meanwhile, round by round, and others who change autoscalers. Each interleaving of these is a
-- sequence of steps.
pub mod Range
pub mod Sound
pub mod Foreign
pub mod Admitted
pub mod Reapply
mod Tests
use platform_governance_oper.Prelude.{
  String, ◌≡◌, ◌⊎◌, Bool, true, false, Option, none, some, List, [], ◌∷◌, ◌++◌,
}
use platform_governance_oper.Api.{WorkloadPolicy}
use platform_governance_oper.Kube.{Error}
use platform_governance_oper.PolicyWebhook.{
  validate_workload_policy, default_workload_policy, create, update,
}
use platform_governance_oper.Hpa.{Deployment, Hpa, is_managed_hpa}
use platform_governance_oper.Reconcile.{NamespacedName, Client, scales, reconcile_deployment}
use platform_governance_oper.Reconcile.Steps.{IsSavedAs}

-- The state of the API server, the policies stored there, and the reconciles under way: for each the
-- policy that it read and the Deployments that are left of those that it listed.
pub record Cluster (W : Type 0) : Type 0 where
  pub world : W
  pub policies : List WorkloadPolicy
  pub running : List (WorkloadPolicy × List Deployment)

module _ {W Q : Type 0} (client : Client W) (stored : W → NamespacedName → Option Hpa)
    (parse_quantity : String → Option Q) where
  -- A write, failed or not, leaves the autoscaler at a key as it is or stores its object there.
  pub record IsAtomic : Type 0 where
    pub create_atomic :
        (w : W) (h : Hpa) (k : NamespacedName)
        → (stored (client.create_hpa h w).1 k ≡ stored w k)
          ⊎ ((saved : Hpa) × (stored (client.create_hpa h w).1 k ≡ some saved) × IsSavedAs h saved)
    pub update_atomic :
        (w : W) (h : Hpa) (k : NamespacedName)
        → (stored (client.update_hpa h w).1 k ≡ stored w k)
          ⊎ ((saved : Hpa) × (stored (client.update_hpa h w).1 k ≡ some saved) × IsSavedAs h saved)
    pub delete_atomic :
        (w : W) (h : Hpa) (k : NamespacedName)
        → (stored (client.delete_hpa h w).1 k ≡ stored w k)
          ⊎ (stored (client.delete_hpa h w).1 k ≡ none)

  -- What is left of a reconcile after a round: nothing, if the round gave an error.
  abbrev pub left_after :
      Option Error → WorkloadPolicy → List Deployment → List (WorkloadPolicy × List Deployment)
  left_after none policy ds = (policy, ds) ∷ []
  left_after (some e) policy ds = []

  pub data Step (c c' : Cluster W) : Type 0 where
    -- A user creates a policy: the API server has it defaulted, then validated.
    created :
        (obj : WorkloadPolicy)
        → validate_workload_policy parse_quantity (create (default_workload_policy obj)) ≡ none
        → c' ≡ record c { policies = default_workload_policy obj ∷ c.policies }
        → Step c c'
    updated :
        (before after : List WorkloadPolicy) (old obj : WorkloadPolicy)
        → c.policies ≡ before ++ old ∷ after
        → validate_workload_policy parse_quantity (update old (default_workload_policy obj)) ≡ none
        → c' ≡ record c { policies = before ++ default_workload_policy obj ∷ after }
        → Step c c'
    deleted :
        (before after : List WorkloadPolicy) (old : WorkloadPolicy)
        → c.policies ≡ before ++ old ∷ after
        → c' ≡ record c { policies = before ++ after }
        → Step c c'
    -- A reconcile of a stored policy begins, whatever its priority and with any Deployments.
    began :
        (before after : List WorkloadPolicy) (policy : WorkloadPolicy) (ds : List Deployment)
        → c.policies ≡ before ++ policy ∷ after
        → scales policy ≡ true
        → c' ≡ record c { running = (policy, ds) ∷ c.running }
        → Step c c'
    -- A round of a reconcile under way, whose policy may have been changed or deleted since.
    went_on :
        (before after : List (WorkloadPolicy × List Deployment)) (policy : WorkloadPolicy)
        (d : Deployment) (ds : List Deployment)
        → c.running ≡ before ++ (policy, d ∷ ds) ∷ after
        → c' ≡ record c {
          world = (reconcile_deployment client policy d c.world).1;
          running =
              before
              ++ (left_after (reconcile_deployment client policy d c.world).0 policy ds ++ after);
        }
        → Step c c'
    -- Someone else changes autoscalers, and leaves none that is newly managed or changed and managed.
    interfered :
        (w : W)
        → ((k : NamespacedName) (h : Hpa)
            → stored w k ≡ some h
            → is_managed_hpa (some h) ≡ true
            → stored c.world k ≡ some h)
        → c' ≡ record c { world = w }
        → Step c c'

  pub data Reach (c : Cluster W) : Cluster W → Type 0 where
    start : Reach c c
    then : {between after : Cluster W} → Reach c between → Step between after → Reach c after
