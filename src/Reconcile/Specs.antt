-- ===== src/Reconcile/Specs.antt =====
-- Policies up to their status: what a status update leaves alone, and that it does not change which
-- policy counts as the highest.
use platform_governance_oper.Prelude.{
  String, ◌≡◌, refl, sym, ap, ◌∙◌, inl, inr, true, Option, none, some, List, [], ◌∷◌, map, Result,
  ok, err, arith, Option-cases, Result-cases, eq_iff, ◌↔◌,
}
use platform_governance_oper.Api.{WorkloadPolicy}
use platform_governance_oper.Kube.{Error}
use platform_governance_oper.Reconcile.{
  NamespacedName, Client, consider, highest_of, is_highest_priority_policy,
}

-- The policy without its status.
abbrev pub without_status : WorkloadPolicy → WorkloadPolicy
without_status policy = record policy { status = record { conditions = [] } }

abbrev pub read_spec : Result Error WorkloadPolicy → Result Error WorkloadPolicy
read_spec (ok policy) = ok (without_status policy)
read_spec (err e) = err e

abbrev pub list_specs : Result Error (List WorkloadPolicy) → Result Error (List WorkloadPolicy)
list_specs (ok policies) = ok (map without_status policies)
list_specs (err e) = err e

abbrev map_option : Option WorkloadPolicy → Option WorkloadPolicy
map_option none = none
map_option (some p) = some (without_status p)

consider-without_status :
    (candidate : WorkloadPolicy) (highest : Option WorkloadPolicy)
    → consider (without_status candidate) (map_option highest)
      ≡ map_option (consider candidate highest)
unfolding consider
consider-without_status candidate none = ground arith
consider-without_status candidate (some h) = ground arith

highest_of-without_status :
    (policies : List WorkloadPolicy) (highest : Option WorkloadPolicy)
    → highest_of (map without_status policies) (map_option highest)
      ≡ map_option (highest_of policies highest)
unfolding highest_of
highest_of-without_status [] highest = refl
highest_of-without_status (p ∷ policies) highest =
    ap (highest_of (map without_status policies)) (consider-without_status p highest)
    ∙ highest_of-without_status policies (consider p highest)

-- The name of the policy that counts as the highest, if the policies were listed and there is one.
abbrev name_of : Option WorkloadPolicy → Option String
name_of none = none
name_of (some p) = some p.meta.name

abbrev highest_name : Result Error (List WorkloadPolicy) → Option String
highest_name (ok policies) = name_of (highest_of policies none)
highest_name (err e) = none

name_of-map_option : (p : Option WorkloadPolicy) → name_of (map_option p) ≡ name_of p
name_of-map_option none = refl
name_of-map_option (some p) = refl

highest_name-list_specs :
    (r : Result Error (List WorkloadPolicy)) → highest_name (list_specs r) ≡ highest_name r
highest_name-list_specs (ok policies) =
    ap name_of (highest_of-without_status policies none)
    ∙ name_of-map_option (highest_of policies none)
highest_name-list_specs (err e) = refl

module _ {W : Type 0} (client : Client W) where
  -- Both states have the same policies up to their status, and the same Deployments.
  pub record SameSpecs (w w' : W) : Type 0 where
    pub policies :
        (key : NamespacedName)
        → read_spec (client.get_policy key w') ≡ read_spec (client.get_policy key w)
    pub lists :
        (namespace : String)
        → list_specs (client.list_policies namespace w')
          ≡ list_specs (client.list_policies namespace w)
    pub deployments :
        (namespace : String)
        → client.list_deployments namespace w' ≡ client.list_deployments namespace w

  pub SameSpecs-refl : (w : W) → SameSpecs w w
  SameSpecs-refl w = record { policies = λ _. refl; lists = λ _. refl; deployments = λ _. refl }

  pub SameSpecs-trans : {w w' w'' : W} → SameSpecs w w' → SameSpecs w' w'' → SameSpecs w w''
  SameSpecs-trans first second = record {
    policies = λ key. second.policies key ∙ first.policies key;
    lists = λ namespace. second.lists namespace ∙ first.lists namespace;
    deployments = λ namespace. second.deployments namespace ∙ first.deployments namespace;
  }

  -- A policy that was read is read again, up to its status.
  pub read_again :
      {w w' : W} (key : NamespacedName) (policy : WorkloadPolicy)
      → SameSpecs w w'
      → client.get_policy key w ≡ ok policy
      → (policy' : WorkloadPolicy) × (client.get_policy key w' ≡ ok policy')
        × (without_status policy' ≡ without_status policy)
  read_again {w} {w'} key policy same read = elim (Result-cases (client.get_policy key w')) [
    | inl (policy', read') ↦
        (policy', read', cc (same.policies key, ap read_spec read, ap read_spec read'))
    | inr (e, bad) ↦ absurd (cc (same.policies key, ap read_spec read, ap read_spec bad))
  ]

  -- It counts as the highest exactly when its name is the one of the highest.
  is_highest-name_iff :
      (policy : WorkloadPolicy) (w : W)
      → (is_highest_priority_policy client policy w ≡ ok true)
        ↔ (highest_name (client.list_policies policy.meta.namespace w) ≡ some policy.meta.name)
  unfolding is_highest_priority_policy
  is_highest-name_iff policy w =
      elim (Result-cases (client.list_policies policy.meta.namespace w)) [
        | inr (e, bad) ↦
            ((λ h. absurd (ground (arith, bad, h))), λ h. absurd (ground (arith, bad, h)))
        | inl (policies, listed) ↦ elim (Option-cases (highest_of policies none)) [
          | inl nobody ↦ (
            (λ h. absurd (ground (arith, listed, nobody, h))),
            (λ h. absurd (ground (arith, listed, nobody, h))),
          )
          | inr (top, is) ↦ (
            (λ h. ground (arith, listed, is, h, eq_iff top.meta.name policy.meta.name)),
            (λ h. ground (arith, listed, is, h, eq_iff top.meta.name policy.meta.name)),
          )
        ]
      ]

  highest_name-same :
      {w w' : W} (namespace : String)
      → SameSpecs w w'
      → highest_name (client.list_policies namespace w')
        ≡ highest_name (client.list_policies namespace w)
  highest_name-same {w} {w'} namespace same =
      sym (highest_name-list_specs (client.list_policies namespace w'))
      ∙ ap highest_name (same.lists namespace)
      ∙ highest_name-list_specs (client.list_policies namespace w)

  pub still_highest :
      {w w' : W} (policy policy' : WorkloadPolicy)
      → SameSpecs w w'
      → policy'.meta ≡ policy.meta
      → is_highest_priority_policy client policy w ≡ ok true
      → is_highest_priority_policy client policy' w' ≡ ok true
  still_highest {w} {w'} policy policy' same meta top = (is_highest-name_iff policy' w').1 (
      rw meta (highest_name-same policy.meta.namespace same ∙ (is_highest-name_iff policy w).0 top))

  -- Two policies of a namespace that count as the highest have one name.
  pub one_highest :
      {w w' : W} (policy policy' : WorkloadPolicy)
      → SameSpecs w w'
      → policy'.meta.namespace ≡ policy.meta.namespace
      → is_highest_priority_policy client policy w ≡ ok true
      → is_highest_priority_policy client policy' w' ≡ ok true
      → policy'.meta.name ≡ policy.meta.name
  one_highest {w} {w'} policy policy' same namespace top top' = cc (
    (is_highest-name_iff policy w).0 top,
    (is_highest-name_iff policy' w').0 top',
    highest_name-same policy.meta.namespace same,
    ap (λ n. highest_name (client.list_policies n w')) namespace,
  )
