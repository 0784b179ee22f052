-- ===== src/Reconcile/Tests/Requests.antt =====
-- A test of requests in turn, with a server that has two policies and keeps the status of one.
use platform_governance_oper.Prelude.{
  String, ◌≡◌, ◌==◌, refl, sym, subst, inl, inr, true, none, List, [], ◌∷◌, ok, err, arith, All,
  Bool-cases, eq_iff, if◌then◌else◌, lookup, trim_space, trim_left, trim_right, is_space,
  parse_bool, Result,
}
use platform_governance_oper.Api.{WorkloadPolicy, Condition}
use platform_governance_oper.Kube.{Error, not_found}
use platform_governance_oper.Hpa.{
  Deployment, effective_horizontal_scaling_policy, managed_hpa_name, hpa_enabled_for_deployment,
  desired_hpa_for_deployment,
}
use platform_governance_oper.Reconcile.{
  NamespacedName, Client, consider, beats, highest_of, is_highest_priority_policy,
  reconcile_existing, reconcile_deployment, reconcile_deployments, reconcile_deployment_hpas,
}
use platform_governance_oper.Reconcile.Steps.{IsStore}
use platform_governance_oper.Reconcile.Governed.{IsGoverned}
use platform_governance_oper.Reconcile.Status.{
  update_available_status_if_changed, reconcile_status, reconcile,
}
use platform_governance_oper.Reconcile.Specs.{SameSpecs, SameSpecs-refl, read_spec, list_specs}
use platform_governance_oper.Reconcile.Requests.{handled, IsApiServer}
use platform_governance_oper.Reconcile.Lasting.{handled-IsGoverned}
use platform_governance_oper.Reconcile.Memory.{Memory, stored, memory, memory-IsStore}
use platform_governance_oper.Samples.{standard_policy, urgent_policy}
use platform_governance_oper.Reconcile.Tests.{deployments, distinct, empty, urgent_key, set_only}

-- The autoscalers, and the conditions of the urgent policy.
abbrev Full : Type 0
Full = Memory × List Condition

abbrev part : Client Memory
part = memory [] deployments urgent_policy

abbrev with_conditions : List Condition → WorkloadPolicy
with_conditions cs = record urgent_policy { status = record { conditions = cs } }

abbrev standard_key : NamespacedName
standard_key = ("team", "standard")

-- The policies by their names in the namespace `team`.
abbrev policy_at : NamespacedName → List Condition → Result Error WorkloadPolicy
policy_at k cs =
    if k.0 == "team"
    then if k.1 == "urgent"
      then ok (with_conditions cs)
      else if k.1 == "standard"
      then ok standard_policy
      else err not_found
    else err not_found

abbrev server : Client Full
server = record {
  get_policy = λ k w. policy_at k w.1;
  list_policies =
      λ n w. if n == "team" then ok (standard_policy ∷ with_conditions w.1 ∷ []) else ok [];
  list_deployments = λ n w. if n == "team" then ok deployments else ok [];
  get_hpa = λ k w. part.get_hpa k w.0;
  create_hpa = λ h w. ((part.create_hpa h w.0).0, ((part.create_hpa h w.0).1, w.1));
  update_hpa = λ h w. ((part.update_hpa h w.0).0, ((part.update_hpa h w.0).1, w.1));
  delete_hpa = λ h w. ((part.delete_hpa h w.0).0, ((part.delete_hpa h w.0).1, w.1));
  update_policy_status =
      λ p w. if p.meta.name == "urgent" then (none, (w.0, p.status.conditions)) else (none, w);
  set_status_condition = set_only;
}

part-IsStore : IsStore part stored
part-IsStore = memory-IsStore [] deployments urgent_policy

server-IsStore : IsStore server (λ w. stored w.0)
server-IsStore = record {
  keyed = λ w. part-IsStore.keyed w.0;
  found = λ w. part-IsStore.found w.0;
  missing = λ w. part-IsStore.missing w.0;
  create_frame = λ w. part-IsStore.create_frame w.0;
  created = λ w. part-IsStore.created w.0;
  update_frame = λ w. part-IsStore.update_frame w.0;
  updated = λ w. part-IsStore.updated w.0;
  delete_frame = λ w. part-IsStore.delete_frame w.0;
  deleted = λ w. part-IsStore.deleted w.0;
}

-- Conditions do not show in what is read up to the status.
same_but_conditions : (m m' : Memory) (cs cs' : List Condition) → SameSpecs server (m, cs) (m', cs')
same_but_conditions m m' cs cs' = record {
  policies = λ k. reads k;
  lists = λ n. lists n;
  deployments = λ n. refl;
}
  where
    reads : (k : NamespacedName) → read_spec (policy_at k cs') ≡ read_spec (policy_at k cs)
    reads k = elim (Bool-cases (k.0 == "team")) [
      | inr off ↦ rw off refl
      | inl on ↦ rw on (elim (Bool-cases (k.1 == "urgent")) [
        | inl urgent ↦ rw urgent refl
        | inr other ↦ rw other refl
      ])
    ]

    lists :
        (n : String)
        → list_specs
            (if n == "team" then ok (standard_policy ∷ with_conditions cs' ∷ []) else ok [])
          ≡ list_specs
              (if n == "team" then ok (standard_policy ∷ with_conditions cs ∷ []) else ok [])
    lists n = elim (Bool-cases (n == "team")) [ inl on ↦ rw on refl | inr off ↦ rw off refl ]

status-SameSpecs :
    (w : Full) (p : WorkloadPolicy) → SameSpecs server w (server.update_policy_status p w).1
status-SameSpecs w p = elim (Bool-cases (p.meta.name == "urgent")) [
  | inl on ↦ rw on (same_but_conditions w.0 w.0 w.1 p.status.conditions)
  | inr off ↦ rw off (SameSpecs-refl server w)
]

named :
    (k : NamespacedName) (w : Full) (p : WorkloadPolicy)
    → policy_at k w.1 ≡ ok p
    → (p.meta.namespace, p.meta.name) ≡ k
named k w p h = ground (arith, h, eq_iff k.0 "team", eq_iff k.1 "urgent", eq_iff k.1 "standard")

placed :
    (n : String) (w : Full) (ds : List Deployment)
    → server.list_deployments n w ≡ ok ds
    → All (λ (d : Deployment). d.namespace ≡ n) ds
placed n w ds h = elim (Bool-cases (n == "team")) [
  | inr off ↦
      let none_listed : ◌≡◌ {A = List Deployment} [] ds = cc (rw off at h) in
      subst (All (λ (d : Deployment). d.namespace ≡ n)) none_listed tt
  | inl on ↦
      let all_listed : deployments ≡ ds = cc (rw on at h) in
      let here : "team" ≡ n = sym ((eq_iff n "team").0 on) in
      subst (All (λ (d : Deployment). d.namespace ≡ n)) all_listed (here, (here, tt))
]

server-IsApiServer : IsApiServer server
server-IsApiServer = record {
  named = named;
  placed = placed;
  created = λ w h. same_but_conditions w.0 (part.create_hpa h w.0).1 w.1 w.1;
  updated = λ w h. same_but_conditions w.0 (part.update_hpa h w.0).1 w.1 w.1;
  deleted = λ w h. same_but_conditions w.0 (part.delete_hpa h w.0).1 w.1 w.1;
  status_updated = status-SameSpecs;
}

server-StatusApart :
    (w : Full) (p : WorkloadPolicy) (k : NamespacedName)
    → stored (server.update_policy_status p w).1.0 k ≡ stored w.0 k
server-StatusApart w p k = elim (Bool-cases (p.meta.name == "urgent")) [
  | inl on ↦ rw on refl
  | inr off ↦ rw off refl
]

abbrev start : Full
start = (empty, [])

is_highest : is_highest_priority_policy server (with_conditions []) start ≡ ok true
unfolding is_highest_priority_policy highest_of consider beats
is_highest = refl

-- The request for the urgent policy, after one for the other policy.
reconciles :
    (reconcile true server urgent_key (handled true server (standard_key ∷ []) start)).result
    ≡ ok tt
unfolding reconcile reconcile_status update_available_status_if_changed reconcile_deployment_hpas
    is_highest_priority_policy highest_of consider beats reconcile_deployments reconcile_deployment
    reconcile_existing hpa_enabled_for_deployment effective_horizontal_scaling_policy lookup
    trim_space trim_left trim_right is_space parse_bool managed_hpa_name desired_hpa_for_deployment
reconciles = refl

handled-IsGoverned_example :
    All
      (IsGoverned server
        (λ w. stored w.0)
        (with_conditions [])
        (handled true server
          (standard_key ∷ urgent_key ∷ standard_key ∷ ("other", "urgent") ∷ urgent_key ∷ [])
          start))
      deployments
handled-IsGoverned_example =
    handled-IsGoverned server (λ w. stored w.0) server-IsStore server-StatusApart server-IsApiServer
      true urgent_key start (with_conditions []) deployments refl is_highest refl
      (standard_key ∷ []) (standard_key ∷ ("other", "urgent") ∷ urgent_key ∷ []) refl distinct
      reconciles
