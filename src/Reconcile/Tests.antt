-- ===== src/Reconcile/Tests.antt =====
-- Tests of the reconcilers.
mod Twice
mod Requests
mod Conflict
use platform_governance_oper.Prelude.{
  ◌≡◌, ◌≢◌, ◌↔◌, refl, ap, inr, Bool, true, false, none, some, List, [], ◌∷◌, ok, arith, All,
  eq_iff, lookup, trim_space, trim_left, trim_right, is_space, parse_bool,
}
use platform_governance_oper.Api.{
  WorkloadPolicy, SecurityBaseline, Condition, default_hpa_max_replicas,
}
use platform_governance_oper.Hpa.{
  Deployment, Hpa, deployment_hpa_enabled_annotation, effective_horizontal_scaling_policy,
  managed_hpa_name, hpa_enabled_for_deployment, desired_hpa_for_deployment, is_managed_hpa,
}
use platform_governance_oper.Reconcile.{
  NamespacedName, Client, consider, beats, highest_of, is_highest_priority_policy,
  reconcile_existing, reconcile_deployment, reconcile_deployments, reconcile_deployment_hpas,
}
use platform_governance_oper.Reconcile.Steps.{Step, hpa_key}
use platform_governance_oper.Reconcile.Governed.{IsGoverned}
use platform_governance_oper.Reconcile.Converge.{DistinctKeys}
use platform_governance_oper.Reconcile.Ends.{Ends, reconcile_deployment_hpas_iff}
use platform_governance_oper.Reconcile.Highest.{IsTop, is_highest_priority_policy_iff}
use platform_governance_oper.Reconcile.Status.{
  StatusClient, update_available_status_if_changed, reconcile_status, reconcile, reconcile_baseline,
}
use platform_governance_oper.Reconcile.Whole.{StatusApart, reconcile-not_highest, reconcile-foreign}
use platform_governance_oper.Reconcile.Again.{
  IsStatusStore, security_baseline, meta, spec, reconcile_simple, reconcile_simple-settles,
}
use platform_governance_oper.Reconcile.Memory.{Memory, stored, memory, memory-IsStore}
use platform_governance_oper.Samples.{standard_policy, urgent_policy, baseline}

-- One Deployment opts in, the other does not.
abbrev web : Deployment
web = record {
  name = "web";
  namespace = "team";
  annotations = some ((deployment_hpa_enabled_annotation, " true ") ∷ []);
}

abbrev jobs : Deployment
jobs = record { name = "jobs"; namespace = "team"; annotations = none }

abbrev policies : List WorkloadPolicy
policies = standard_policy ∷ urgent_policy ∷ []

abbrev deployments : List Deployment
deployments = web ∷ jobs ∷ []

-- The API server, asked about the policy.
abbrev server : WorkloadPolicy → Client Memory
server policy = memory policies deployments policy

abbrev empty : Memory
empty = λ _. none

abbrev urgent_key : NamespacedName
urgent_key = ("team", "urgent")

distinct : DistinctKeys deployments
unfolding managed_hpa_name
distinct = (
  (
    (λ e. ground (arith, eq_iff "web-pgo-hpa" "jobs-pgo-hpa", ap (λ (k : NamespacedName). k.1) e)),
    tt,
  ),
  (tt, tt),
)

runs : (reconcile_deployments (server urgent_policy) urgent_policy deployments empty).0 ≡ none
unfolding reconcile_deployments reconcile_deployment reconcile_existing hpa_enabled_for_deployment
    effective_horizontal_scaling_policy lookup trim_space trim_left trim_right is_space parse_bool
    managed_hpa_name desired_hpa_for_deployment
runs = refl

is_highest : is_highest_priority_policy (server urgent_policy) urgent_policy empty ≡ ok true
unfolding is_highest_priority_policy highest_of consider beats
is_highest = refl

is_lower : is_highest_priority_policy (server standard_policy) standard_policy empty ≡ ok false
unfolding is_highest_priority_policy highest_of consider beats
is_lower = refl

reconciles : (reconcile true (server urgent_policy) urgent_key empty).result ≡ ok tt
unfolding reconcile reconcile_status update_available_status_if_changed reconcile_deployment_hpas
    is_highest_priority_policy highest_of consider beats reconcile_deployments reconcile_deployment
    reconcile_existing hpa_enabled_for_deployment effective_horizontal_scaling_policy lookup
    trim_space trim_left trim_right is_space parse_bool managed_hpa_name desired_hpa_for_deployment
reconciles = refl

abbrev after_loop : Memory
after_loop = (reconcile_deployment_hpas (server urgent_policy) urgent_policy empty).1

reconcile_deployment_hpas_iff_example :
    (reconcile_deployment_hpas (server urgent_policy) urgent_policy empty ≡ (none, after_loop))
    ↔ Ends (server urgent_policy) urgent_policy empty none after_loop
reconcile_deployment_hpas_iff_example =
    reconcile_deployment_hpas_iff (server urgent_policy) urgent_policy empty none after_loop

is_highest_priority_policy_iff_example :
    (is_highest_priority_policy (server urgent_policy) urgent_policy empty ≡ ok true)
    ↔ ((top : WorkloadPolicy) × IsTop policies top × (top.meta.name ≡ "urgent"))
is_highest_priority_policy_iff_example =
    is_highest_priority_policy_iff (server urgent_policy) urgent_policy empty policies refl

apart : (policy : WorkloadPolicy) → StatusApart (server policy) stored
apart policy = λ w p k. refl

standard_is_lower :
    is_highest_priority_policy (server standard_policy) standard_policy empty ≢ ok true
standard_is_lower = λ e. cc (e, is_lower)

reconcile-not_highest_example :
    stored (reconcile true (server standard_policy) ("team", "standard") empty).state (hpa_key web)
    ≡ none
reconcile-not_highest_example =
    reconcile-not_highest (server standard_policy) stored (apart standard_policy) true
      ("team", "standard") empty standard_policy (hpa_key web) refl (inr standard_is_lower)

-- An autoscaler of another tool, at the key that the operator would use.
abbrev foreign : Hpa
foreign = record {
  name = "web-pgo-hpa";
  namespace = "team";
  resource_version = "7";
  labels = none;
  annotations = none;
  owner_references = [];
  spec = record {
    scale_target_ref = record { api_version = "apps/v1"; kind = "Deployment"; name = "web" };
    min_replicas = none;
    max_replicas = default_hpa_max_replicas;
    metrics = [];
  };
}

abbrev taken : Memory
taken = λ _. some foreign

foreign_is_stored : stored taken ("team", "web-pgo-hpa") ≡ some foreign
foreign_is_stored = refl

foreign-is_managed : is_managed_hpa (some foreign) ≡ false
unfolding is_managed_hpa lookup
foreign-is_managed = refl

reconcile-foreign_example :
    stored (reconcile true (server urgent_policy) urgent_key taken).state ("team", "web-pgo-hpa")
    ≡ some foreign
reconcile-foreign_example =
    reconcile-foreign (server urgent_policy) stored (apart urgent_policy) true
      (memory-IsStore policies deployments urgent_policy) urgent_key taken urgent_policy
      ("team", "web-pgo-hpa") foreign refl foreign_is_stored foreign-is_managed

abbrev set_only : List Condition → Condition → List Condition × Bool
set_only [] c = (c ∷ [], true)
set_only (_ ∷ _) c = (c ∷ [], false)

set_only_again : (cs : List Condition) (c : Condition) → (set_only (set_only cs c).0 c).1 ≡ false
set_only_again [] c = refl
set_only_again (_ ∷ _) c = refl

-- A server with one baseline, whose conditions are the last one set. An update of the status keeps
-- the rest as it is stored.
abbrev baseline_server : StatusClient SecurityBaseline SecurityBaseline
baseline_server = record {
  get = λ _ w. ok w;
  update_status = λ o w. (none, record w { status = o.status });
  set_status_condition = set_only;
}

baseline_server-IsStatusStore :
    IsStatusStore (meta security_baseline) (spec security_baseline) baseline_server
baseline_server-IsStatusStore = record {
  set_again = set_only_again;
  reads_back = λ key w o o' read same_meta same_spec done.
      let same : w ≡ o = cc read in
      let the_meta : w.meta ≡ o'.meta = cc (same, same_meta) in
      let the_spec : w.spec ≡ o'.spec = cc (same, same_spec) in
      λ i. ok (record { meta = the_meta i; spec = the_spec i; status = o'.status });
}

marks_baseline :
    (reconcile_baseline true baseline_server ("team", "baseline") baseline).result ≡ ok tt
unfolding reconcile_baseline update_available_status_if_changed
marks_baseline = refl

abbrev after : SecurityBaseline
after = (reconcile_baseline true baseline_server ("team", "baseline") baseline).state

reconcile_simple-settles_example :
    reconcile_baseline true baseline_server ("team", "baseline") after
    ≡ record { state = after; events = []; result = ok tt }
reconcile_simple-settles_example =
    reconcile_simple-settles security_baseline true baseline_server baseline_server-IsStatusStore
      ("team", "baseline") baseline marks_baseline
