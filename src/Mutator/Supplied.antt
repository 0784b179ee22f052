-- ===== src/Mutator/Supplied.antt =====
-- What a policy gives to a pod, as a proposition.
use platform_governance_oper.Prelude.{
  String, ◌≢◌, none, List, [], ◌∷◌, All, All_prop, entries, Entries, lookup, HasKeys,
}
use platform_governance_oper.Api.{WorkloadPolicy}
use platform_governance_oper.Kube.{Container, Pod}
use platform_governance_oper.Defaults.Labels.{mandatory}
use platform_governance_oper.Defaults.Resources.{IsSaturated, requests, limits}
use platform_governance_oper.Mutator.Grows.{IsSettled}

module _ {V W : Type 0} where
  -- Every key of `ds` is in `m`.
  abbrev pub Names : List (String × W) → Entries V → Type 0
  Names ds m = All (λ (d : String × W). lookup d.0 m ≢ none) ds

  Names-of_HasKeys : (ds : List (String × W)) (m : Entries V) → HasKeys ds m → Names ds m
  Names-of_HasKeys [] m h = tt
  Names-of_HasKeys ((k, _) ∷ ds) m ((v, found), h) = ((λ e. cc (found, e)), Names-of_HasKeys ds m h)

  Names-prop : (ds : List (String × W)) (m : Entries V) → IsProp (Names ds m)
  Names-prop ds m = All_prop (λ (d : String × W). lookup d.0 m ≢ none) (λ d. hlevel) ds

module _ {Q : Type 0} where
  -- Each default request and limit of the policy is set in the container.
  abbrev pub HasDefaults : WorkloadPolicy → Container Q → Type 0
  HasDefaults policy c =
      Names (requests policy) (entries c.requests) × Names (limits policy) (entries c.limits)

  -- The pod has the policy's mandatory labels, and each of its containers the default resources.
  abbrev pub IsSupplied : Pod Q → WorkloadPolicy → Type 0
  IsSupplied pod policy =
      Names (mandatory policy) (entries pod.labels) × All (HasDefaults policy) pod.containers

  HasDefaults-of_saturated :
      (policy : WorkloadPolicy) (cs : List (Container Q))
      → All (IsSaturated policy) cs
      → All (HasDefaults policy) cs
  HasDefaults-of_saturated policy [] h = tt
  HasDefaults-of_saturated policy (c ∷ cs) ((r, l), h) = (
    (
      Names-of_HasKeys (requests policy) (entries c.requests) r,
      Names-of_HasKeys (limits policy) (entries c.limits) l,
    ),
    HasDefaults-of_saturated policy cs h,
  )

  pub IsSupplied-of_settled :
      (pod : Pod Q) (policies : List WorkloadPolicy)
      → All (IsSettled pod) policies
      → All (IsSupplied pod) policies
  IsSupplied-of_settled pod [] h = tt
  IsSupplied-of_settled pod (policy ∷ policies) (here, h) = (
    (
      Names-of_HasKeys (mandatory policy) (entries pod.labels) here.labelled,
      HasDefaults-of_saturated policy pod.containers here.saturated,
    ),
    IsSupplied-of_settled pod policies h,
  )

  pub IsSupplied-prop : (pod : Pod Q) (policy : WorkloadPolicy) → IsProp (IsSupplied pod policy)
  IsSupplied-prop pod policy = hlevel (
    Names-prop (mandatory policy) (entries pod.labels),
    All_prop (HasDefaults policy)
        (λ c. hlevel (
          Names-prop (requests policy) (entries c.requests),
          Names-prop (limits policy) (entries c.limits),
        ))
        pod.containers,
  )
