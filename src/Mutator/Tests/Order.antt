-- ===== src/Mutator/Tests/Order.antt =====
-- Tests of the listing order: two policies, listed in both orders.
use mathlib.Core.List.Perm
use platform_governance_oper.Prelude.{
  ℕ, ◌≡◌, refl, [], ◌∷◌, List, some, none, ok, insertion_sort-IsSliceSort, lookup, pos, IsSliceSort,
  Bool, Option, String,
}
use platform_governance_oper.Api.{WorkloadPolicy}
use platform_governance_oper.Kube.{Pod}
use platform_governance_oper.Defaults.Labels.{label, mandatory}
use platform_governance_oper.Mutator.{
  PodMutator, mutate, handle, sort_workload_policies_by_priority,
}
use platform_governance_oper.Mutator.Order.{Lists, handle-perm, mutate-tied}
use platform_governance_oper.Samples.{
  pod, request, mutator, profile, standard_policy, urgent_policy, parse_quantity, policy_with,
}

abbrev listed : List WorkloadPolicy
listed = standard_policy ∷ urgent_policy ∷ []

abbrev listed_otherwise : List WorkloadPolicy
listed_otherwise = urgent_policy ∷ standard_policy ∷ []

abbrev other_mutator : PodMutator ℕ (Pod ℕ)
other_mutator = record mutator { list_policies = λ _. ok listed_otherwise }

reads : Lists mutator "team" listed (profile ∷ [])
reads = record {
  policies = refl;
  profiles = refl;
  sorts_policies = insertion_sort-IsSliceSort;
  sorts_profiles = insertion_sort-IsSliceSort;
}

reads_otherwise : Lists other_mutator "team" listed_otherwise (profile ∷ [])
reads_otherwise = record {
  policies = refl;
  profiles = refl;
  sorts_policies = insertion_sort-IsSliceSort;
  sorts_profiles = insertion_sort-IsSliceSort;
}

handle-perm_example : handle other_mutator (request pod) ≡ handle mutator (request pod)
handle-perm_example =
    handle-perm mutator other_mutator (request pod) listed listed_otherwise (profile ∷ [])
      (profile ∷ []) (record { decoder = refl; parse_quantity = refl; marshal = refl }) reads
      reads_otherwise (Perm.swap urgent_policy standard_policy []) (Perm.refl (profile ∷ []))
      (((λ e. cc), tt), (tt, tt)) (tt, tt)

-- It has the priority of the standard policy.
abbrev rival_policy : WorkloadPolicy
rival_policy = policy_with "rival" [] (("cost-center", "rival") ∷ []) (pos 1)

standard_default : lookup "cost-center" (mandatory standard_policy) ≡ some "shared"
unfolding lookup
standard_default = refl

rival_default : lookup "cost-center" (mandatory rival_policy) ≡ some "rival"
unfolding lookup
rival_default = refl

unlabelled : label "cost-center" pod ≡ none
unfolding lookup
unlabelled = refl

-- The label of the pod under a sort.
abbrev cost_center :
    ((WorkloadPolicy → WorkloadPolicy → Bool) → List WorkloadPolicy → List WorkloadPolicy)
    → Option String
cost_center sort =
    label "cost-center"
      (mutate parse_quantity (profile ∷ [])
        (sort_workload_policies_by_priority (record mutator { sort_policies = sort })
          (standard_policy ∷ rival_policy ∷ []))
        pod).pod

mutate-tied_example :
    (sort sort' : (WorkloadPolicy → WorkloadPolicy → Bool)
      → List WorkloadPolicy
      → List WorkloadPolicy)
    × IsSliceSort sort
    × IsSliceSort sort'
    × (cost_center sort ≡ some "shared")
    × (cost_center sort' ≡ some "rival")
mutate-tied_example =
    mutate-tied mutator "cost-center" "shared" "rival" standard_policy rival_policy (profile ∷ [])
      pod refl standard_default rival_default unlabelled
