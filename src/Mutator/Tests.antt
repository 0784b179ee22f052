-- ===== src/Mutator/Tests.antt =====
-- Tests of the mutating webhook.
mod Order
use platform_governance_oper.Prelude.{
  String, ℕ, ◌≡◌, refl, [], ◌∷◌, List, some, false, true, All, insertion_sort,
  insertion_sort-IsSliceSort, insert_in, first_of, lookup, ok, err, insert,
}
use platform_governance_oper.Api.{WorkloadPolicy, TelemetryProfile}
use platform_governance_oper.Kube.{Pod, patched, invalid_default_requests, Progress}
use platform_governance_oper.Defaults.{
  fill_defaults, fill_limits, fill_container, fill_containers, apply_policy_resources, fill_labels,
  apply_policy_labels,
}
use platform_governance_oper.Defaults.Labels.{label, mandatory}
use platform_governance_oper.Defaults.Resources.{HasValidQuantities}
use platform_governance_oper.Telemetry.{
  container_has_env_var, append_if_missing, inject_env, is_inactive, inject_containers,
  telemetry_round, apply_telemetry,
}
use platform_governance_oper.Mutator.{
  policy_round, apply_policies, mutate, handle, respond, sort_workload_policies_by_priority,
  sort_telemetry_profiles_by_priority,
}
use platform_governance_oper.Mutator.Settled.{mutate-mutate}
use platform_governance_oper.Mutator.Priority.{mutate-IsHighest, IsHighest}
use platform_governance_oper.Mutator.Handle.{handle-patched, policy_round-failed, outcome, IsRead}
use platform_governance_oper.Samples.{
  pod, request, mutator, profile, standard_policy, urgent_policy, broken_policy, parse_quantity,
}

abbrev listed : List WorkloadPolicy
listed = standard_policy ∷ urgent_policy ∷ []

mutated_pod : Pod ℕ
mutated_pod =
    (mutate parse_quantity (sort_telemetry_profiles_by_priority mutator (profile ∷ []))
      (sort_workload_policies_by_priority mutator listed) pod).pod

-- The urgent policy gives the label that both declare.
takes_urgent_label : label "cost-center" mutated_pod ≡ some "urgent"
unfolding mutated_pod mutate sort_workload_policies_by_priority sort_telemetry_profiles_by_priority
    insertion_sort insert_in apply_policies policy_round apply_policy_labels fill_labels
    apply_policy_resources fill_containers fill_container fill_limits fill_defaults apply_telemetry
    telemetry_round inject_containers inject_env append_if_missing container_has_env_var is_inactive
    lookup insert
takes_urgent_label = refl

patches_pod : (handle mutator (request pod)).0 ≡ patched pod mutated_pod
unfolding handle respond mutated_pod mutate sort_workload_policies_by_priority
    sort_telemetry_profiles_by_priority insertion_sort insert_in apply_policies policy_round
    apply_policy_labels fill_labels apply_policy_resources fill_containers fill_container
    fill_limits fill_defaults apply_telemetry telemetry_round inject_containers inject_env
    append_if_missing container_has_env_var is_inactive lookup insert
patches_pod = refl

both_valid : All (HasValidQuantities parse_quantity) listed
both_valid = ((((100, refl), ((134217728, refl), tt)), tt), ((tt, tt), tt))

abbrev once : Pod ℕ
once = (mutate parse_quantity (profile ∷ []) listed pod).pod

mutate-mutate_example :
    ((mutate parse_quantity (profile ∷ []) listed once).mutated ≡ false)
    × ((mutate parse_quantity (profile ∷ []) listed once).events ≡ [])
mutate-mutate_example = mutate-mutate parse_quantity (profile ∷ []) listed pod both_valid

mutate-IsHighest_example : (w : WorkloadPolicy) × IsHighest "cost-center" "urgent" listed w
unfolding lookup mutate mutated_pod
mutate-IsHighest_example =
    mutate-IsHighest mutator "cost-center" "urgent"
      (sort_telemetry_profiles_by_priority mutator (profile ∷ [])) listed pod
      insertion_sort-IsSliceSort refl takes_urgent_label

handle-patched_example :
    (p : Pod ℕ) × (policies : List WorkloadPolicy) × (profiles : List TelemetryProfile) × IsRead
      mutator
      (request pod)
      p
      policies
      profiles
    × ((outcome mutator (request pod) p policies profiles).mutated ≡ true)
    × (pod ≡ pod)
    × (mutator.marshal (outcome mutator (request pod) p policies profiles).pod ≡ ok mutated_pod)
    × ((handle mutator (request pod)).1
        ≡ (outcome mutator (request pod) p policies profiles).events)
handle-patched_example = handle-patched mutator (request pod) pod mutated_pod patches_pod

abbrev start : Progress ℕ
start = record { pod = pod; mutated = false; events = [] }

quantity_fails :
    (apply_policy_resources parse_quantity
      (apply_policy_labels pod broken_policy).0
      broken_policy).1
    ≡ err (invalid_default_requests "broken" "cpu" "lots")
unfolding apply_policy_labels fill_labels apply_policy_resources fill_containers fill_container
    fill_defaults lookup insert
quantity_fails = refl

policy_round-failed_example :
    ((policy_round parse_quantity broken_policy start).mutated ≡ false)
    × ((policy_round parse_quantity broken_policy start).events ≡ [])
    × ((k : String)
        → label k (policy_round parse_quantity broken_policy start).pod
          ≡ first_of (label k pod) (lookup k (mandatory broken_policy)))
policy_round-failed_example =
    policy_round-failed parse_quantity broken_policy start
      (invalid_default_requests "broken" "cpu" "lots") quantity_fails
