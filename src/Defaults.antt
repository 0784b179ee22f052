-- ===== src/Defaults.antt =====
-- internal/webhook/core/pod_mutating_webhook.go: `applyPolicyLabels` and `applyPolicyResources`, the
-- defaults of a WorkloadPolicy. What the Go code changes in place, a function here returns.
pub mod Labels
pub mod Fill
pub mod Resources
pub mod Containers
mod Tests
use platform_governance_oper.Prelude.{
  String, Bool, true, false, Option, none, some, List, [], ◌∷◌, Result, ok, err, Entries, entries,
  lookup, insert,
}
use platform_governance_oper.Api.{WorkloadPolicy}
use platform_governance_oper.Kube.{
  Container, Pod, Error, invalid_default_requests, invalid_default_limits,
}

module _ {Q : Type 0} (parse_quantity : String → Option Q) where
  -- `for rName, rVal := range defaults`: the entries that are missing are parsed and added, until
  -- one does not parse. What was added before that stays.
  unfoldable pub fill_defaults :
      Entries String → Entries Q → Bool → Entries Q × Result (String × String) Bool
  fill_defaults [] present mutated = (present, ok mutated)
  fill_defaults ((name, value) ∷ defaults) present mutated = elim (lookup name present) [
    | some _ ↦ fill_defaults defaults present mutated
    | none ↦ elim (parse_quantity value) [
      | none ↦ (present, err (name, value))
      | some qty ↦ fill_defaults defaults (insert name qty present) true
    ]
  ]

  -- The second half of the loop body of `applyPolicyResources`: the limits.
  unfoldable pub fill_limits : WorkloadPolicy → Container Q → Bool → Container Q × Result Error Bool
  fill_limits policy c mutated =
      let (limits, r) =
        fill_defaults (entries policy.spec.default_limits) (entries c.limits) mutated in
      (
        record c { limits = some limits },
        elim r [
          | ok m ↦ ok m
          | err (name, value) ↦ err (invalid_default_limits policy.meta.name name value)
        ],
      )

  -- The loop body of `applyPolicyResources`: the requests, then the limits.
  unfoldable pub fill_container :
      WorkloadPolicy → Container Q → Bool → Container Q × Result Error Bool
  fill_container policy c mutated =
      let (requests, r) =
        fill_defaults (entries policy.spec.default_requests) (entries c.requests) mutated in
      let c' : Container Q = record c { requests = some requests } in
      elim r [
        | ok m ↦ fill_limits policy c' m
        | err (name, value) ↦ (c', err (invalid_default_requests policy.meta.name name value))
      ]

  -- The loop of `applyPolicyResources`; an error leaves the containers that follow as they are.
  unfoldable pub fill_containers :
      WorkloadPolicy → List (Container Q) → Bool → List (Container Q) × Result Error Bool
  fill_containers policy [] mutated = ([], ok mutated)
  fill_containers policy (c ∷ cs) mutated =
      let (c', r) = fill_container policy c mutated in
      elim r [
        | err e ↦ (c' ∷ cs, err e)
        | ok m ↦ let (cs', r') = fill_containers policy cs m in (c' ∷ cs', r')
      ]

  -- `applyPolicyResources`
  unfoldable pub apply_policy_resources : Pod Q → WorkloadPolicy → Pod Q × Result Error Bool
  apply_policy_resources pod policy =
      let (containers, r) = fill_containers policy pod.containers false in
      (record pod { containers = containers }, r)

-- The loop of `applyPolicyLabels`.
unfoldable pub fill_labels : Entries String → Entries String → Bool → Entries String × Bool
fill_labels [] labels mutated = (labels, mutated)
fill_labels ((label, value) ∷ defaults) labels mutated = elim (lookup label labels) [
  | some _ ↦ fill_labels defaults labels mutated
  | none ↦ fill_labels defaults (insert label value labels) true
]

module _ {Q : Type 0} where
  -- `applyPolicyLabels`; a nil map is made first.
  unfoldable pub apply_policy_labels : Pod Q → WorkloadPolicy → Pod Q × Bool
  apply_policy_labels pod policy =
      let (labels, mutated) =
        fill_labels (entries policy.spec.mandatory_labels) (entries pod.labels) false in
      (record pod { labels = some labels }, mutated)
