-- ===== src/Cluster/Tests/Admitted.antt =====
-- Tests of a cluster after a policy was created: a pod is sent, and the policy is applied again.
use mathlib.Core.List.{Memᴰ}
use platform_governance_oper.Prelude.{
  ◌≡◌, refl, sym, ap, ◌∙◌, inr, ℕ, none, some, Option, List, [], ◌∷◌, Result, ok, err, All,
  insertion_sort, insertion_sort-IsSliceSort, insert_in, lookup, insert,
}
use platform_governance_oper.Api.{SecurityBaseline, TelemetryProfile}
use platform_governance_oper.Kube.{Pod, Error, not_found, Request, patched, allowed}
use platform_governance_oper.Defaults.{
  fill_defaults, fill_limits, fill_container, fill_containers, apply_policy_resources, fill_labels,
  apply_policy_labels,
}
use platform_governance_oper.Telemetry.{
  container_has_env_var, append_if_missing, inject_env, is_inactive, inject_containers,
  telemetry_round, apply_telemetry,
}
use platform_governance_oper.Validator
use platform_governance_oper.Validator.{
  check_baselines, violation, some_writable, has_writable_root, may_run_as_root,
}
use platform_governance_oper.Validator.Verdict.{CompliesWithAll}
use platform_governance_oper.Mutator
use platform_governance_oper.Mutator.{
  PodMutator, mutate, policy_round, apply_policies, respond, sort_workload_policies_by_priority,
  sort_telemetry_profiles_by_priority,
}
use platform_governance_oper.Mutator.Supplied.{IsSupplied}
use platform_governance_oper.PolicyWebhook.{
  validate_workload_policy, default_workload_policy, update,
}
use platform_governance_oper.Reconcile.Memory.{stored}
use platform_governance_oper.Cluster
use platform_governance_oper.Cluster.Reapply.{effective, Reach-reapply}
use platform_governance_oper.Cluster.Admitted.{Admits, Reach-governs}
use platform_governance_oper.Mutator.Given.{Gives}
use platform_governance_oper.Mutator.Handle.{IsRead}
use platform_governance_oper.Mutator.Sent.{ReadsBack}
use platform_governance_oper.Telemetry.Again.{AreTraced}
use platform_governance_oper.Cluster.Tests.{
  server, server-IsAtomic, policy, at_rest-IsSound, creates,
}
use platform_governance_oper.Samples.{pod, request, mutator, validator, profile, parse_quantity}

abbrev webhook : PodMutator ℕ (Pod ℕ)
webhook = record mutator { list_policies = λ _. ok (policy ∷ []) }

abbrev decode_with :
    Option (Request (Pod ℕ) → Result Error (Pod ℕ)) → Request (Pod ℕ) → Result Error (Pod ℕ)
decode_with none req = err not_found
decode_with (some decode) req = decode req

reads_back : ReadsBack webhook
reads_back decode injected req p written =
    (p, ap (λ d. decode_with d req) (sym injected) ∙ sym written, refl)

-- The pod with the labels, the resources and the environment that it gets.
supplied_pod : Pod ℕ
supplied_pod = (mutate parse_quantity (profile ∷ []) (policy ∷ []) pod).pod

patches_pod : (Mutator.handle webhook (request pod)).0 ≡ patched pod supplied_pod
unfolding Mutator.handle respond supplied_pod mutate sort_workload_policies_by_priority
    sort_telemetry_profiles_by_priority insertion_sort insert_in apply_policies policy_round
    apply_policy_labels fill_labels apply_policy_resources fill_containers fill_container
    fill_limits fill_defaults apply_telemetry telemetry_round inject_containers inject_env
    append_if_missing container_has_env_var is_inactive lookup insert default_workload_policy
patches_pod = refl

accepts_pod : (Validator.handle validator (request supplied_pod)).0 ≡ allowed ""
unfolding Validator.handle supplied_pod mutate apply_policies policy_round apply_policy_labels
    fill_labels apply_policy_resources fill_containers fill_container fill_limits fill_defaults
    apply_telemetry telemetry_round inject_containers inject_env append_if_missing
    container_has_env_var is_inactive lookup insert default_workload_policy check_baselines
    violation some_writable has_writable_root may_run_as_root
accepts_pod = refl

admits : Admits webhook validator (request pod) supplied_pod
admits = record {
  object = supplied_pod;
  sends = inr (pod, patches_pod);
  decode = λ req. ok req.object_raw;
  injected = refl;
  decoded = refl;
  accepts = accepts_pod;
}

Reach-governs_example :
    ((sent : Pod ℕ) × (profiles : List TelemetryProfile) × IsRead webhook
        (request pod)
        sent
        (policy ∷ [])
        profiles
      × Gives parse_quantity
          (sort_workload_policies_by_priority webhook (policy ∷ []))
          (sort_telemetry_profiles_by_priority webhook profiles)
          sent
          supplied_pod
      × All (IsSupplied supplied_pod) (policy ∷ [])
      × All (AreTraced supplied_pod.containers) profiles)
    × ((bs : List SecurityBaseline) × (validator.list_baselines "team" ≡ ok bs)
        × CompliesWithAll supplied_pod "team" bs)
Reach-governs_example =
    Reach-governs server stored webhook validator server-IsAtomic insertion_sort-IsSliceSort
      insertion_sort-IsSliceSort refl reads_back at_rest-IsSound
      (Cluster.then Cluster.start creates) (request pod) (policy ∷ []) supplied_pod refl
      (Memᴰ.head refl, tt) admits

Reach-reapply_example :
    (validate_workload_policy parse_quantity (update policy (default_workload_policy policy))
      ≡ none)
    × (default_workload_policy policy ≡ policy)
    × (effective policy.spec.horizontal_scaling ≡ policy.spec.horizontal_scaling)
Reach-reapply_example =
    Reach-reapply server stored parse_quantity server-IsAtomic at_rest-IsSound
      (Cluster.then Cluster.start creates) [] [] policy refl
