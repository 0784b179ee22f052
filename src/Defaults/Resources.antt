-- ===== src/Defaults/Resources.antt =====
-- `applyPolicyResources`: what a success gives, when it succeeds, and that it only adds.
use platform_governance_oper.Prelude.{
  String, ◌≡◌, refl, sym, ◌⊎◌, inl, inr, Bool, true, false, Option, some, arith, Result, ok, err,
  Result-cases, Entries, entries, lookup, first_of, Extends, Extends-refl, HasKeys, ◌∙◌,
}
use platform_governance_oper.Api.{WorkloadPolicy}
use platform_governance_oper.Kube.{
  Container, Error, invalid_default_requests, invalid_default_limits,
}
use platform_governance_oper.Defaults.{fill_defaults, fill_limits, fill_container}
use platform_governance_oper.Defaults.Fill.{
  parsed, Parses, fill_defaults-Extends, fill_defaults-HasKeys, fill_defaults-lookup,
  fill_defaults-full, fill_defaults-ok, fill_defaults-mutated, fill_defaults-unmutated,
}

abbrev pub requests : WorkloadPolicy → Entries String
requests policy = entries policy.spec.default_requests

abbrev pub limits : WorkloadPolicy → Entries String
limits policy = entries policy.spec.default_limits

module _ {Q : Type 0} where
  -- Each resource that the policy has a default for is set.
  abbrev pub IsSaturated : WorkloadPolicy → Container Q → Type 0
  IsSaturated policy c =
      HasKeys (requests policy) (entries c.requests) × HasKeys (limits policy) (entries c.limits)

  -- The container with its nil resource lists made.
  abbrev pub made : Container Q → Container Q
  made c = record c { requests = some (entries c.requests); limits = some (entries c.limits) }

  -- Resources may have been added, and nothing else was changed.
  pub record Grows (c c' : Container Q) : Type 0 where
    pub requests : Extends (entries c.requests) (entries c'.requests)
    pub limits : Extends (entries c.limits) (entries c'.limits)
    pub rest : c' ≡ record c { requests = c'.requests; limits = c'.limits }

module _ {Q : Type 0} (parse_quantity : String → Option Q) where
  abbrev pub HasValidQuantities : WorkloadPolicy → Type 0
  HasValidQuantities policy =
      Parses parse_quantity (requests policy) × Parses parse_quantity (limits policy)

  -- Each quantity is the container's own, else the policy's default.
  pub record IsFilled (policy : WorkloadPolicy) (c c' : Container Q) : Type 0 where
    pub requested :
        (k : String)
        → lookup k (entries c'.requests)
          ≡ first_of
              (lookup k (entries c.requests))
              (parsed parse_quantity (lookup k (requests policy)))
    pub limited :
        (k : String)
        → lookup k (entries c'.limits)
          ≡ first_of
              (lookup k (entries c.limits))
              (parsed parse_quantity (lookup k (limits policy)))
    pub rest : c' ≡ record c { requests = c'.requests; limits = c'.limits }

  module _ (policy : WorkloadPolicy) where
    abbrev pub requests_of : Container Q → Bool → Entries Q × Result (String × String) Bool
    requests_of c m = fill_defaults parse_quantity (requests policy) (entries c.requests) m

    abbrev pub limits_of : Container Q → Bool → Entries Q × Result (String × String) Bool
    limits_of c m = fill_defaults parse_quantity (limits policy) (entries c.limits) m

    -- Either both lists are filled, or the error comes from the requests, or from the limits.
    fill_container_cases :
        (c : Container Q) (m : Bool)
        → ((m' b : Bool) × ((requests_of c m).1 ≡ ok m')
            × ((limits_of c m').1 ≡ ok b)
            × (fill_container parse_quantity policy c m ≡ (
              record c { requests = some (requests_of c m).0; limits = some (limits_of c m').0 },
              ok b,
            )))
          ⊎ (((e : Error) × (fill_container parse_quantity policy c m
                  ≡ (record c { requests = some (requests_of c m).0 }, err e)))
              ⊎ ((m' : Bool) × (e : Error) × (fill_container parse_quantity policy c m ≡ (
                record c { requests = some (requests_of c m).0; limits = some (limits_of c m').0 },
                err e,
              ))))
    unfolding fill_container fill_limits
    fill_container_cases c m = elim (Result-cases (requests_of c m).1) [
      | inr ((name, value), failed) ↦
          inr (inl (invalid_default_requests policy.meta.name name value, ground arith))
      | inl (m', filled) ↦ elim (Result-cases (limits_of c m').1) [
        | inr ((name, value), failed) ↦
            inr (inr (m', invalid_default_limits policy.meta.name name value, ground arith))
        | inl (b, done) ↦ inl (m', b, filled, done, ground arith)
      ]
    ]

    pub fill_container-Grows :
        (c : Container Q) (m : Bool) → Grows c (fill_container parse_quantity policy c m).0
    fill_container-Grows c m =
        let more = fill_defaults-Extends parse_quantity (requests policy) (entries c.requests) m in
        let further = λ (m' : Bool).
          fill_defaults-Extends parse_quantity (limits policy) (entries c.limits) m' in
        elim (fill_container_cases c m) [
          | inl (m', b, _, _, e) ↦
              rw e (record { requests = more; limits = further m'; rest = refl })
          | inr (inl (_, e)) ↦
              rw e
                (record { requests = more; limits = Extends-refl (entries c.limits); rest = refl })
          | inr (inr (m', _, e)) ↦
              rw e (record { requests = more; limits = further m'; rest = refl })
        ]

    pub fill_container-ok :
        (c : Container Q) (m b : Bool)
        → (fill_container parse_quantity policy c m).1 ≡ ok b
        → IsFilled policy c (fill_container parse_quantity policy c m).0
          × IsSaturated policy (fill_container parse_quantity policy c m).0
    fill_container-ok c m b h = elim (fill_container_cases c m) [
      | inl (m', b', first, second, e) ↦ rw e (
        record {
          requested = λ k.
              fill_defaults-lookup parse_quantity k (requests policy) (entries c.requests) m m'
                first;
          limited = λ k.
              fill_defaults-lookup parse_quantity k (limits policy) (entries c.limits) m' b' second;
          rest = refl;
        },
        (
          fill_defaults-HasKeys parse_quantity (requests policy) (entries c.requests) m m' first,
          fill_defaults-HasKeys parse_quantity (limits policy) (entries c.limits) m' b' second,
        ),
      )
      | inr (inl (_, e)) ↦ absurd (cc (rw e at h))
      | inr (inr (m', _, e)) ↦ absurd (cc (rw e at h))
    ]

    pub fill_container-valid :
        HasValidQuantities policy
        → (c : Container Q) (m : Bool)
        → (b : Bool) × ((fill_container parse_quantity policy c m).1 ≡ ok b)
    unfolding fill_container fill_limits
    fill_container-valid v c m =
        let (m', first) =
          fill_defaults-ok parse_quantity (requests policy) (entries c.requests) m v.0 in
        let (b, second) =
          fill_defaults-ok parse_quantity (limits policy) (entries c.limits) m' v.1 in
        (b, ground (arith, first, second))

    pub fill_container-full :
        (c : Container Q) (m : Bool)
        → IsSaturated policy c
        → fill_container parse_quantity policy c m ≡ (made c, ok m)
    unfolding fill_container fill_limits
    fill_container-full c m h = ground (
      arith,
      fill_defaults-full parse_quantity (requests policy) (entries c.requests) m h.0,
      fill_defaults-full parse_quantity (limits policy) (entries c.limits) m h.1,
    )

    -- A set flag stays set, and it stays clear only where no resource was missing.
    pub fill_container-mutated :
        (c : Container Q) (b : Bool)
        → (fill_container parse_quantity policy c true).1 ≡ ok b
        → b ≡ true
    fill_container-mutated c b h = elim (fill_container_cases c true) [
      | inl (m', b', first, second, e) ↦
          let on =
            fill_defaults-mutated parse_quantity (requests policy) (entries c.requests) m' first in
          let stays =
            fill_defaults-mutated parse_quantity (limits policy) (entries c.limits) b'
              (rw on at second) in
          let same : b' ≡ b = cc (rw e at h) in sym same ∙ stays
      | inr (inl (_, e)) ↦ absurd (cc (rw e at h))
      | inr (inr (m', _, e)) ↦ absurd (cc (rw e at h))
    ]

    pub fill_container-unmutated :
        (c : Container Q)
        → (fill_container parse_quantity policy c false).1 ≡ ok false
        → IsSaturated policy c
    fill_container-unmutated c h = elim (fill_container_cases c false) [
      | inl (true, b, first, second, e) ↦
          let same : b ≡ false = cc (rw e at h) in
          absurd (
            cc (
              fill_defaults-mutated parse_quantity (limits policy) (entries c.limits) b second,
              same,
            ))
      | inl (false, b, first, second, e) ↦
          let same : b ≡ false = cc (rw e at h) in
          (
            fill_defaults-unmutated parse_quantity (requests policy) (entries c.requests) first,
            fill_defaults-unmutated parse_quantity (limits policy) (entries c.limits)
                (rw same at second),
          )
      | inr (inl (_, e)) ↦ absurd (cc (rw e at h))
      | inr (inr (m', _, e)) ↦ absurd (cc (rw e at h))
    ]
