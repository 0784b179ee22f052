-- ===== src/Cluster/Tests/Runs.antt =====
-- Test of a run of the cluster: an autoscaler of another tool.
use platform_governance_oper.Prelude.{
  ◌≡◌, refl, Option, none, some, [], ◌∷◌, ◌++◌, true, false, lookup, pos,
}
use platform_governance_oper.Kube.{Error}
use platform_governance_oper.PolicyWebhook.{default_workload_policy}
use platform_governance_oper.Hpa.{Hpa, is_managed_hpa}
use platform_governance_oper.Reconcile.{NamespacedName, scales, reconcile_deployment}
use platform_governance_oper.Reconcile.Memory.{Memory, stored, memory-IsStore}
use platform_governance_oper.Cluster.{Cluster, left_after, Step, Reach}
use platform_governance_oper.Cluster
use platform_governance_oper.Cluster.Foreign.{Reach-foreign}
use platform_governance_oper.Cluster.Tests.{server, web, policy, with_policy}
use platform_governance_oper.Samples.{standard_policy, parse_quantity}

scales-policy : scales policy ≡ true
unfolding default_workload_policy
scales-policy = refl

-- Another tool's autoscaler, at the key that the operator would use for `web`.
abbrev key : NamespacedName
key = ("team", "web-pgo-hpa")

abbrev foreign : Hpa
foreign = record {
  name = "web-pgo-hpa";
  namespace = "team";
  resource_version = "7";
  labels = none;
  annotations = none;
  owner_references = [];
  spec = record {
    scale_target_ref = record { api_version = "apps/v1"; kind = "Deployment"; name = "web" };
    min_replicas = none;
    max_replicas = pos 10;
    metrics = [];
  };
}

foreign-is_managed : is_managed_hpa (some foreign) ≡ false
unfolding is_managed_hpa lookup
foreign-is_managed = refl

abbrev taken : Cluster Memory
taken = record with_policy { world = λ _. some foreign }

abbrev begun : Cluster Memory
begun = record taken { running = (policy, web ∷ []) ∷ [] }

abbrev refused : Option Error × Memory
refused = reconcile_deployment server policy web taken.world

abbrev gone_on : Cluster Memory
gone_on = record begun {
  world = refused.1;
  running = left_after server stored parse_quantity refused.0 policy [] ++ [];
}

-- The trace is written with its steps, whose kind decides what others may do in them.
reaches : Reach server stored parse_quantity taken gone_on
reaches =
    Cluster.then
      (Cluster.then Cluster.start (Cluster.began [] [] policy (web ∷ []) refl scales-policy refl))
      (Cluster.went_on [] [] policy web [] refl refl)

Reach-foreign_example : stored gone_on.world key ≡ some foreign
unfolding reaches
Reach-foreign_example =
    Reach-foreign server stored parse_quantity (memory-IsStore [] [] standard_policy) key foreign
      foreign-is_managed reaches ((tt, tt), tt) refl
