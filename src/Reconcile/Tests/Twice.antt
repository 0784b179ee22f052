-- ===== src/Reconcile/Tests/Twice.antt =====
-- A test of two reconciles in turn, with a server that also keeps the policy's status.
use platform_governance_oper.Prelude.{
  ◌≡◌, refl, true, none, ok, lookup, trim_space, trim_left, trim_right, is_space, parse_bool,
}
use platform_governance_oper.Api.{WorkloadPolicy}
use platform_governance_oper.Hpa.{
  effective_horizontal_scaling_policy, managed_hpa_name, hpa_enabled_for_deployment,
  desired_hpa_for_deployment,
}
use platform_governance_oper.Reconcile.{
  Client, consider, beats, highest_of, is_highest_priority_policy, reconcile_existing,
  reconcile_deployment, reconcile_deployments, reconcile_deployment_hpas,
}
use platform_governance_oper.Reconcile.Steps.{IsStore}
use platform_governance_oper.Reconcile.Status.{
  update_available_status_if_changed, reconcile_status, reconcile,
}
use platform_governance_oper.Reconcile.Rest.{IsPolicyStore}
use platform_governance_oper.Reconcile.Quiet.{IsQuiet, reconcile-IsQuiet}
use platform_governance_oper.Reconcile.Memory.{Memory, stored, memory-IsStore}
use platform_governance_oper.Samples.{urgent_policy}
use platform_governance_oper.Reconcile.Tests.{
  policies, deployments, distinct, server, empty, urgent_key, set_only, set_only_again,
}

-- The autoscalers, and the policy as it is stored.
abbrev Full : Type 0
Full = Memory × WorkloadPolicy

abbrev part : Client Memory
part = server urgent_policy

abbrev full_server : Client Full
full_server = record {
  get_policy = λ _ w. ok w.1;
  list_policies = λ _ _. ok policies;
  list_deployments = λ _ _. ok deployments;
  get_hpa = λ k w. part.get_hpa k w.0;
  create_hpa = λ h w. ((part.create_hpa h w.0).0, ((part.create_hpa h w.0).1, w.1));
  update_hpa = λ h w. ((part.update_hpa h w.0).0, ((part.update_hpa h w.0).1, w.1));
  delete_hpa = λ h w. ((part.delete_hpa h w.0).0, ((part.delete_hpa h w.0).1, w.1));
  update_policy_status = λ p w. (none, (w.0, p));
  set_status_condition = set_only;
}

part-IsStore : IsStore part stored
part-IsStore = memory-IsStore policies deployments urgent_policy

full_server-IsStore : IsStore full_server (λ w. stored w.0)
full_server-IsStore = record {
  keyed = λ w. part-IsStore.keyed w.0;
  found = λ w. part-IsStore.found w.0;
  missing = λ w. part-IsStore.missing w.0;
  create_frame = λ w. part-IsStore.create_frame w.0;
  created = λ w. part-IsStore.created w.0;
  update_frame = λ w. part-IsStore.update_frame w.0;
  updated = λ w. part-IsStore.updated w.0;
  delete_frame = λ w. part-IsStore.delete_frame w.0;
  deleted = λ w. part-IsStore.deleted w.0;
}

full_server-IsPolicyStore : IsPolicyStore full_server
full_server-IsPolicyStore = record {
  created = λ w h. record { policies = λ _. refl; deployments = λ _. refl };
  updated = λ w h. record { policies = λ _. refl; deployments = λ _. refl };
  deleted = λ w h. record { policies = λ _. refl; deployments = λ _. refl };
  status_written = λ w policy namespace. refl;
  reads_back = λ key w old new read meta spec written. refl;
  set_again = set_only_again;
}

abbrev start : Full
start = (empty, urgent_policy)

is_highest : is_highest_priority_policy full_server urgent_policy start ≡ ok true
unfolding is_highest_priority_policy highest_of consider beats
is_highest = refl

reconciles : (reconcile true full_server urgent_key start).result ≡ ok tt
unfolding reconcile reconcile_status update_available_status_if_changed reconcile_deployment_hpas
    is_highest_priority_policy highest_of consider beats reconcile_deployments reconcile_deployment
    reconcile_existing hpa_enabled_for_deployment effective_horizontal_scaling_policy lookup
    trim_space trim_left trim_right is_space parse_bool managed_hpa_name desired_hpa_for_deployment
reconciles = refl

reconcile-IsQuiet_example :
    IsQuiet
      (reconcile true full_server urgent_key start).state
      (reconcile true full_server urgent_key (reconcile true full_server urgent_key start).state)
reconcile-IsQuiet_example =
    reconcile-IsQuiet full_server (λ w. stored w.0) full_server-IsStore (λ w p k. refl)
      full_server-IsPolicyStore true urgent_key start urgent_policy deployments refl refl is_highest
      refl distinct reconciles
