-- ===== src/Mutator/Order.antt =====
-- The order in which the API server lists policies and profiles: where it does not matter, and where
-- it does.
use mathlib.Core.List.{Perm}
use platform_governance_oper.Prelude.{
  String, ◌≡◌, refl, sym, ap, ◌∙◌, none, some, List, [], ◌∷◌, arith, ok, Option-cases, Result-cases,
  first_of, inl, inr, lookup, IsSliceSort, insertion_sort, insert_in, insertion_sort-IsSliceSort,
  reversing_sort, reversing_sort-IsSliceSort, Bool,
}
use platform_governance_oper.Api.{WorkloadPolicy, TelemetryProfile}
use platform_governance_oper.Kube.{Pod, Request, Progress}
use platform_governance_oper.Defaults.Labels.{mandatory, label}
use platform_governance_oper.Mutator.{
  mutate, policy_before, profile_before, PodMutator, sort_workload_policies_by_priority,
  sort_telemetry_profiles_by_priority, respond, handle,
}
use platform_governance_oper.Mutator.Distinct.{
  DistinctPolicies, DistinctProfiles, policies_agree, profiles_agree,
}
use platform_governance_oper.Mutator.Priority.{first_default, label-mutate}

insertion_sort_tied :
    (p q : WorkloadPolicy)
    → p.spec.priority ≡ q.spec.priority
    → insertion_sort policy_before (p ∷ q ∷ []) ≡ p ∷ q ∷ []
unfolding insertion_sort insert_in
insertion_sort_tied p q tied = ground (arith, tied)

module _ {Q Raw : Type 0} where
  -- The webhook finds these policies and profiles in a namespace, and its sorts keep the promise of
  -- `sort.Slice`.
  pub record Lists (m : PodMutator Q Raw) (namespace : String) (ps : List WorkloadPolicy)
      (qs : List TelemetryProfile) : Type 0 where
    pub policies : m.list_policies namespace ≡ ok ps
    pub profiles : m.list_profiles namespace ≡ ok qs
    pub sorts_policies : IsSliceSort m.sort_policies
    pub sorts_profiles : IsSliceSort m.sort_profiles

  -- Both webhooks decode, parse and serialise alike.
  pub record Alike (m m' : PodMutator Q Raw) : Type 0 where
    pub decoder : m'.decoder ≡ m.decoder
    pub parse_quantity : m'.parse_quantity ≡ m.parse_quantity
    pub marshal : m'.marshal ≡ m.marshal

  respond-alike :
      (m m' : PodMutator Q Raw) (req : Request Raw) (s : Progress Q)
      → m'.marshal ≡ m.marshal
      → respond m' req s ≡ respond m req s
  unfolding respond
  respond-alike m m' req s same = rw same refl

  -- The response and the events are the same in whatever order the policies and the profiles of the
  -- namespace are listed and however equal elements are sorted, if no two policies and no two
  -- profiles have the same priority.
  pub handle-perm :
      (m m' : PodMutator Q Raw) (req : Request Raw) (ps ps' : List WorkloadPolicy)
      (qs qs' : List TelemetryProfile)
      → Alike m m'
      → Lists m req.namespace ps qs
      → Lists m' req.namespace ps' qs'
      → Perm ps ps'
      → Perm qs qs'
      → DistinctPolicies ps
      → DistinctProfiles qs
      → handle m' req ≡ handle m req
  unfolding handle sort_workload_policies_by_priority sort_telemetry_profiles_by_priority
  handle-perm m m' req ps ps' qs qs' same l l' p q apart apart' =
      let policies =
        policies_agree m.sort_policies m'.sort_policies l.sorts_policies l'.sorts_policies ps ps'
          apart p in
      let profiles =
        profiles_agree m.sort_profiles m'.sort_profiles l.sorts_profiles l'.sorts_profiles qs qs'
          apart' q in
      elim (Option-cases m.decoder) [
        | inl missing ↦ ground (arith, missing, same.decoder)
        | inr (decode, injected) ↦ elim (Result-cases (decode req)) [
          | inr (e, bad) ↦ ground (arith, injected, same.decoder, bad)
          | inl (pod, decoded) ↦
              let equal : mutate m'.parse_quantity (m'.sort_profiles profile_before qs')
                    (m'.sort_policies policy_before ps') pod
                  ≡ mutate m.parse_quantity (m.sort_profiles profile_before qs)
                      (m.sort_policies policy_before ps) pod =
                λ i. mutate (same.parse_quantity i) (sym profiles i) (sym policies i) pod in
              ground (
                arith,
                injected,
                same.decoder,
                decoded,
                l.policies,
                l.profiles,
                l'.policies,
                l'.profiles,
                equal,
                respond-alike m m' req
                    (mutate m.parse_quantity (m.sort_profiles profile_before qs)
                      (m.sort_policies policy_before ps) pod)
                    same.marshal,
              )
        ]
      ]

  label-mutate_sorted :
      (m : PodMutator Q Raw) (k u : String) (p q : WorkloadPolicy) (ps : List WorkloadPolicy)
      (profiles : List TelemetryProfile) (pod : Pod Q)
      → m.sort_policies policy_before ps ≡ p ∷ q ∷ []
      → lookup k (mandatory p) ≡ some u
      → label k pod ≡ none
      → label k (mutate m.parse_quantity profiles (sort_workload_policies_by_priority m ps) pod).pod
        ≡ some u
  unfolding sort_workload_policies_by_priority
  label-mutate_sorted m k u p q ps profiles pod sorted given missing =
      label-mutate m.parse_quantity k profiles (m.sort_policies policy_before ps) pod
      ∙ ap (λ ps. first_of (label k pod) (first_default k ps)) sorted
      ∙ ground (arith, missing, given)

  -- Where two policies of the same priority have different defaults for a label, the promise of
  -- `sort.Slice` does not say which one a pod without the label gets: of two sorts that keep it, one
  -- gives the default of the one policy and the other that of the other, from the same list.
  pub mutate-tied :
      (m : PodMutator Q Raw) (k u v : String) (p q : WorkloadPolicy)
      (profiles : List TelemetryProfile) (pod : Pod Q)
      → p.spec.priority ≡ q.spec.priority
      → lookup k (mandatory p) ≡ some u
      → lookup k (mandatory q) ≡ some v
      → label k pod ≡ none
      → (sort sort' : (WorkloadPolicy → WorkloadPolicy → Bool)
          → List WorkloadPolicy
          → List WorkloadPolicy)
        × IsSliceSort sort
        × IsSliceSort sort'
        × (label k
              (mutate m.parse_quantity profiles
                (sort_workload_policies_by_priority
                  (record m { sort_policies = sort })
                  (p ∷ q ∷ []))
                pod).pod
            ≡ some u)
        × (label k
              (mutate m.parse_quantity profiles
                (sort_workload_policies_by_priority
                  (record m { sort_policies = sort' })
                  (p ∷ q ∷ []))
                pod).pod
            ≡ some v)
  unfolding reversing_sort
  mutate-tied m k u v p q profiles pod tied from_p from_q missing = (
    insertion_sort,
    reversing_sort,
    insertion_sort-IsSliceSort,
    reversing_sort-IsSliceSort,
    label-mutate_sorted (record m { sort_policies = insertion_sort }) k u p q (p ∷ q ∷ []) profiles
        pod (insertion_sort_tied p q tied) from_p missing,
    label-mutate_sorted (record m { sort_policies = reversing_sort }) k v q p (p ∷ q ∷ []) profiles
        pod (insertion_sort_tied q p (sym tied)) from_q missing,
  )
