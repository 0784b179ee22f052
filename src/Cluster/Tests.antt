-- ===== src/Cluster/Tests.antt =====
-- Tests of the cluster: a policy is created, and a reconcile of it begins and goes one round.
mod Runs
mod Admitted
use platform_governance_oper.Prelude.{
  ◌≡◌, refl, inl, inr, false, Bool-cases, Option, none, some, [], ◌∷◌, ◌++◌, trim_space, trim_left,
  trim_right, is_space,
}
use platform_governance_oper.Api.{WorkloadPolicy}
use platform_governance_oper.Kube.{Error}
use platform_governance_oper.PolicyWebhook.{
  validate_workload_policy, validate_workload_policy_spec, default_workload_policy,
  check_quantities, check_labels, check_horizontal_scaling,
}
use platform_governance_oper.Hpa.{Deployment, deployment_hpa_enabled_annotation}
use platform_governance_oper.Mutator.{mutate}
use platform_governance_oper.Reconcile.{Client, reconcile_deployment}
use platform_governance_oper.Reconcile.Steps.{key_of}
use platform_governance_oper.Reconcile.Memory.{Memory, stored, memory, same_key}
use platform_governance_oper.Cluster.{Cluster, IsAtomic, left_after, Step, Reach}
use platform_governance_oper.Cluster
use platform_governance_oper.Cluster.Sound.{IsSound, Reach-IsSound}
use platform_governance_oper.Samples.{pod, profile, standard_policy, parse_quantity}

abbrev server : Client Memory
server = memory [] [] standard_policy

server-IsAtomic : IsAtomic server stored parse_quantity
server-IsAtomic = record {
  create_atomic = λ w h k. elim (Bool-cases (same_key (key_of h) k)) [
    | inl on ↦ inr (h, rw on (rw on refl), record { labels = refl; view = refl })
    | inr off ↦ inl (rw off refl)
  ];
  update_atomic = λ w h k. elim (Bool-cases (same_key (key_of h) k)) [
    | inl on ↦ inr (h, rw on (rw on refl), record { labels = refl; view = refl })
    | inr off ↦ inl (rw off refl)
  ];
  delete_atomic = λ w h k. elim (Bool-cases (same_key (key_of h) k)) [
    | inl on ↦ inr (rw on refl)
    | inr off ↦ inl (rw off refl)
  ];
}

abbrev web : Deployment
web = record {
  name = "web";
  namespace = "team";
  annotations = some ((deployment_hpa_enabled_annotation, " true ") ∷ []);
}

abbrev policy : WorkloadPolicy
policy = default_workload_policy standard_policy

abbrev at_rest : Cluster Memory
at_rest = record { world = λ _. none; policies = []; running = [] }

at_rest-IsSound : IsSound server stored parse_quantity at_rest
at_rest-IsSound = record { policies = tt; running = tt; managed = λ k h e labelled. absurd (cc) }

abbrev with_policy : Cluster Memory
with_policy = record at_rest { policies = policy ∷ [] }

abbrev under_way : Cluster Memory
under_way = record with_policy { running = (policy, web ∷ []) ∷ [] }

-- A round for `web`.
abbrev round : Option Error × Memory
round = reconcile_deployment server policy web (λ _. none)

abbrev one_round_on : Cluster Memory
one_round_on = record under_way {
  world = round.1;
  running = left_after server stored parse_quantity round.0 policy [] ++ [];
}

creates : Step server stored parse_quantity at_rest with_policy
unfolding validate_workload_policy validate_workload_policy_spec default_workload_policy
    check_quantities check_labels check_horizontal_scaling trim_space trim_left trim_right is_space
creates = Cluster.created standard_policy refl refl

begins : Step server stored parse_quantity with_policy under_way
unfolding default_workload_policy
begins = Cluster.began [] [] policy (web ∷ []) refl refl refl

goes_on : Step server stored parse_quantity under_way one_round_on
goes_on = Cluster.went_on [] [] policy web [] refl refl

reaches : Reach server stored parse_quantity at_rest one_round_on
reaches = Cluster.then (Cluster.then (Cluster.then Cluster.start creates) begins) goes_on

Reach-IsSound_example : IsSound server stored parse_quantity one_round_on
Reach-IsSound_example =
    Reach-IsSound server stored parse_quantity server-IsAtomic at_rest-IsSound reaches
