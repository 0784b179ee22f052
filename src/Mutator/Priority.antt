-- ===== src/Mutator/Priority.antt =====
-- Which policy a label comes from: the one of the highest priority that declares it.
use mathlib.Core.List.{Mem, mem-cons_self, mem-cons_of_mem}
use mathlib.Core.List.Perm
use mathlib.Core.HLevel.{Π_prop}
use platform_governance_oper.Prelude.{
  String, ◌≡◌, ◌≢◌, ap, ◌∙◌, Bool, false, Option, none, some, List, [], ◌∷◌, arith, inl, inr, All,
  All-mem, Option-cases, lookup, first_of, ◌≤ℤ◌, ≤ℤ_prop, ltb_ℤ-false_iff, IsStrictWeak, IsOrdered,
  IsSliceSort,
}
use platform_governance_oper.Api.{WorkloadPolicy, TelemetryProfile}
use platform_governance_oper.Kube.{Pod, Progress}
use platform_governance_oper.Defaults.{apply_policy_labels}
use platform_governance_oper.Defaults.Labels.{mandatory, label, apply_policy_labels-lookup}
use platform_governance_oper.Defaults.Containers.{labels-apply_policy_resources}
use platform_governance_oper.Telemetry.{apply_telemetry}
use platform_governance_oper.Telemetry.Values.{apply_telemetry-containers}
use platform_governance_oper.Mutator.{
  policy_round, apply_policies, mutate, policy_before, PodMutator,
  sort_workload_policies_by_priority,
}
use platform_governance_oper.Mutator.Settled.{policy_round-pod}

-- The default for a label of the first policy that declares it.
abbrev pub first_default : String → List WorkloadPolicy → Option String
first_default k [] = none
first_default k (policy ∷ policies) =
    first_of (lookup k (mandatory policy)) (first_default k policies)

-- The policy declares the label.
abbrev pub Declares : String → WorkloadPolicy → Type 0
Declares k policy = lookup k (mandatory policy) ≢ none

pub policy_before-IsStrictWeak : IsStrictWeak policy_before
policy_before-IsStrictWeak = record {
  asymm = λ x y h. ground arith;
  cotrans = λ x y z h. ground arith;
}

-- The policy declares the label with this default, and no policy of higher priority declares it.
pub record IsHighest (k v : String) (policies : List WorkloadPolicy) (w : WorkloadPolicy)
    : Type 0 where
  pub listed : Mem w policies
  pub default : lookup k (mandatory w) ≡ some v
  pub highest :
      (w' : WorkloadPolicy) → Mem w' policies → Declares k w' → w'.spec.priority ≤ℤ w.spec.priority

module _ (k v : String) where
  -- On a list in descending order the first policy that declares a label is the highest.
  first_default-highest :
      (ws : List WorkloadPolicy)
      → IsOrdered policy_before ws
      → first_default k ws ≡ some v
      → (w : WorkloadPolicy) × Mem w ws
        × (lookup k (mandatory w) ≡ some v)
        × All (λ w'. Declares k w' → w'.spec.priority ≤ℤ w.spec.priority) ws
  first_default-highest [] o h = cc
  first_default-highest (w ∷ ws) (below, o) h = elim (Option-cases (lookup k (mandatory w))) [
    | inl missing ↦
        let (best, m, e, rest) = first_default-highest ws o (rw missing at h) in
        (best, mem-cons_of_mem w m, e, ((λ declares. absurd (declares missing)), rest))
    | inr (u, found) ↦
        (w, mem-cons_self, found ∙ (rw found at h), ((λ _. omega arith), lower ws below))
  ]
    where
      lower :
          (xs : List WorkloadPolicy)
          → All (λ y. policy_before y w ≡ false) xs
          → All (λ w'. Declares k w' → w'.spec.priority ≤ℤ w.spec.priority) xs
      lower [] h = tt
      lower (x ∷ xs) (here, h) =
          ((λ _. (ltb_ℤ-false_iff w.spec.priority x.spec.priority).0 here), lower xs h)

  -- So on the list as `sort.Slice` leaves it.
  first_default-IsHighest :
      (sort : (WorkloadPolicy → WorkloadPolicy → Bool) → List WorkloadPolicy → List WorkloadPolicy)
      (policies : List WorkloadPolicy)
      → IsSliceSort sort
      → first_default k (sort policy_before policies) ≡ some v
      → (w : WorkloadPolicy) × IsHighest k v policies w
  first_default-IsHighest sort policies sorts h =
      let ws = sort policy_before policies in
      let perm = sorts.permutes policy_before policies in
      let (w, m, e, all) =
        first_default-highest ws (sorts.orders policy_before policies policy_before-IsStrictWeak)
          h in
      (
        w,
        record {
          listed = (Perm.mem_iff perm).0 m;
          default = e;
          highest = λ w' m'.
              All-mem (λ w'. Declares k w' → w'.spec.priority ≤ℤ w.spec.priority)
                (λ w'. Π_prop λ _. ≤ℤ_prop w'.spec.priority w.spec.priority) ws all w'
                ((Perm.mem_iff perm).1 m');
        },
      )

module _ {Q : Type 0} (parse_quantity : String → Option Q) where
  pub label-policy_round :
      (k : String) (policy : WorkloadPolicy) (s : Progress Q)
      → label k (policy_round parse_quantity policy s).pod
        ≡ first_of (label k s.pod) (lookup k (mandatory policy))
  label-policy_round k policy s = rw (policy_round-pod parse_quantity policy s) (
      rw (labels-apply_policy_resources parse_quantity policy (apply_policy_labels s.pod policy).0)
        (apply_policy_labels-lookup s.pod policy k))

  label-apply_policies :
      (k : String) (policies : List WorkloadPolicy) (s : Progress Q)
      → label k (apply_policies parse_quantity policies s).pod
        ≡ first_of (label k s.pod) (first_default k policies)
  unfolding apply_policies
  label-apply_policies k [] s = ground arith
  label-apply_policies k (policy ∷ policies) s = ground (
    arith,
    label-policy_round k policy s,
    label-apply_policies k policies (policy_round parse_quantity policy s),
  )

  -- Labels of the result: the pod's own, else the default of the first policy that declares it,
  -- whether or not the resources of any policy fail.
  pub label-mutate :
      (k : String) (profiles : List TelemetryProfile) (policies : List WorkloadPolicy) (pod : Pod Q)
      → label k (mutate parse_quantity profiles policies pod).pod
        ≡ first_of (label k pod) (first_default k policies)
  unfolding mutate
  label-mutate k profiles policies pod =
      let start : Progress Q = record { pod = pod; mutated = false; events = [] } in
      label-apply_policies k policies (apply_telemetry profiles start)
      ∙ ap (λ (p : Pod Q). first_of (label k p) (first_default k policies))
          (apply_telemetry-containers profiles start)

-- A label that the pod lacks and the mutated pod has comes from a listed policy that declares it
-- with that value and has the highest priority of all listed policies that declare the label, if
-- the sort keeps the promise of `sort.Slice`.
pub mutate-IsHighest :
    {Q Raw : Type 0} (m : PodMutator Q Raw) (k v : String) (profiles : List TelemetryProfile)
    (policies : List WorkloadPolicy) (pod : Pod Q)
    → IsSliceSort m.sort_policies
    → label k pod ≡ none
    → label k
        (mutate m.parse_quantity profiles (sort_workload_policies_by_priority m policies) pod).pod
      ≡ some v
    → (w : WorkloadPolicy) × IsHighest k v policies w
unfolding sort_workload_policies_by_priority
mutate-IsHighest m k v profiles policies pod sorts missing given =
    let ws = m.sort_policies policy_before policies in
    first_default-IsHighest k v m.sort_policies policies sorts
      (ground (arith, missing, given, label-mutate m.parse_quantity k profiles ws pod))
