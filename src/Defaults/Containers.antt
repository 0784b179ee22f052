-- ===== src/Defaults/Containers.antt =====
-- `applyPolicyResources` over the containers of a pod.
use platform_governance_oper.Prelude.{
  String, ◌≡◌, refl, ◌↔◌, ◌⊎◌, inl, inr, Bool, true, false, Option, List, [], ◌∷◌, map, arith,
  Result, ok, err, Result-cases, entries, Extends-refl, All, Zip, ap,
}
use platform_governance_oper.Api.{WorkloadPolicy}
use platform_governance_oper.Kube.{Container, Pod, Error}
use platform_governance_oper.Defaults.{fill_container, fill_containers, apply_policy_resources}
use platform_governance_oper.Defaults.Resources.{
  IsSaturated, IsFilled, Grows, made, HasValidQuantities, fill_container-Grows, fill_container-ok,
  fill_container-valid, fill_container-full, fill_container-mutated, fill_container-unmutated,
}

module _ {Q : Type 0} (parse_quantity : String → Option Q) (policy : WorkloadPolicy) where
  abbrev step : Container Q → Bool → Container Q × Result Error Bool
  step = fill_container parse_quantity policy

  abbrev steps : List (Container Q) → Bool → List (Container Q) × Result Error Bool
  steps = fill_containers parse_quantity policy

  -- The first container is filled and the others follow, or it fails and they are left.
  fill_containers-cons_cases :
      (c : Container Q) (cs : List (Container Q)) (m : Bool)
      → ((m' : Bool) × ((step c m).1 ≡ ok m')
          × (steps (c ∷ cs) m ≡ ((step c m).0 ∷ (steps cs m').0, (steps cs m').1)))
        ⊎ ((e : Error) × ((step c m).1 ≡ err e) × (steps (c ∷ cs) m ≡ ((step c m).0 ∷ cs, err e)))
  unfolding fill_containers
  fill_containers-cons_cases c cs m = elim (Result-cases (step c m).1) [
    | inl (m', good) ↦ inl (m', good, ground arith)
    | inr (e, bad) ↦ inr (e, bad, ground arith)
  ]

  abbrev pub IsDone : Container Q → Container Q → Type 0
  IsDone c c' = IsFilled parse_quantity policy c c' × IsSaturated policy c'

  fill_containers-ok :
      (cs : List (Container Q)) (m b : Bool)
      → (fill_containers parse_quantity policy cs m).1 ≡ ok b
      → Zip IsDone cs (fill_containers parse_quantity policy cs m).0
  unfolding fill_containers
  fill_containers-ok [] m b h = tt
  fill_containers-ok (c ∷ cs) m b h = elim (fill_containers-cons_cases c cs m) [
    | inl (m', good, e) ↦ rw e (
      fill_container-ok parse_quantity policy c m m' good,
      fill_containers-ok cs m' b (rw e at h),
    )
    | inr (x, bad, e) ↦ absurd (cc (rw e at h))
  ]

  fill_containers-valid :
      HasValidQuantities parse_quantity policy
      → (cs : List (Container Q)) (m : Bool)
      → (b : Bool) × ((fill_containers parse_quantity policy cs m).1 ≡ ok b)
  unfolding fill_containers
  fill_containers-valid v [] m = (m, refl)
  fill_containers-valid v (c ∷ cs) m =
      let (m', good) = fill_container-valid parse_quantity policy v c m in
      let (b, rest) = fill_containers-valid v cs m' in (b, ground (arith, good, rest))

  fill_containers-full :
      (cs : List (Container Q)) (m : Bool)
      → All (IsSaturated policy) cs
      → fill_containers parse_quantity policy cs m ≡ (map made cs, ok m)
  unfolding fill_containers
  fill_containers-full [] m h = refl
  fill_containers-full (c ∷ cs) m (here, h) =
      ground
        (arith, fill_container-full parse_quantity policy c m here, fill_containers-full cs m h)

  fill_containers-mutated :
      (cs : List (Container Q)) (b : Bool)
      → (fill_containers parse_quantity policy cs true).1 ≡ ok b
      → b ≡ true
  unfolding fill_containers
  fill_containers-mutated [] b h = ground arith
  fill_containers-mutated (c ∷ cs) b h = elim (fill_containers-cons_cases c cs true) [
    | inl (m', good, e) ↦
        fill_containers-mutated cs b
          (rw (fill_container-mutated parse_quantity policy c m' good) at (rw e at h))
    | inr (x, bad, e) ↦ absurd (cc (rw e at h))
  ]

  fill_containers-unmutated :
      (cs : List (Container Q))
      → (fill_containers parse_quantity policy cs false).1 ≡ ok false
      → All (IsSaturated policy) cs
  unfolding fill_containers
  fill_containers-unmutated [] h = tt
  fill_containers-unmutated (c ∷ cs) h = elim (fill_containers-cons_cases c cs false) [
    | inl (true, good, e) ↦ absurd (cc (fill_containers-mutated cs false (rw e at h)))
    | inl (false, good, e) ↦ (
      fill_container-unmutated parse_quantity policy c good,
      fill_containers-unmutated cs (rw e at h),
    )
    | inr (x, bad, e) ↦ absurd (cc (rw e at h))
  ]

  Grows-refl : (c : Container Q) → Grows c c
  Grows-refl c = record {
    requests = Extends-refl (entries c.requests);
    limits = Extends-refl (entries c.limits);
    rest = refl;
  }

  Zip-Grows_refl : (cs : List (Container Q)) → Zip Grows cs cs
  Zip-Grows_refl [] = tt
  Zip-Grows_refl (c ∷ cs) = (Grows-refl c, Zip-Grows_refl cs)

  fill_containers-Grows :
      (cs : List (Container Q)) (m : Bool)
      → Zip Grows cs (fill_containers parse_quantity policy cs m).0
  unfolding fill_containers
  fill_containers-Grows [] m = tt
  fill_containers-Grows (c ∷ cs) m = elim (fill_containers-cons_cases c cs m) [
    | inl (m', good, e) ↦
        rw e (fill_container-Grows parse_quantity policy c m, fill_containers-Grows cs m')
    | inr (x, bad, e) ↦ rw e (fill_container-Grows parse_quantity policy c m, Zip-Grows_refl cs)
  ]

  -- On success each container has its own quantities and, for the resources that it left out,
  -- the parsed defaults of the policy; nothing else of it changes.
  pub apply_policy_resources-ok :
      (pod : Pod Q) (b : Bool)
      → (apply_policy_resources parse_quantity pod policy).1 ≡ ok b
      → Zip IsDone pod.containers (apply_policy_resources parse_quantity pod policy).0.containers
  unfolding apply_policy_resources
  apply_policy_resources-ok pod b h = fill_containers-ok pod.containers false b h

  -- A policy whose quantities all parse never fails.
  pub apply_policy_resources-valid :
      HasValidQuantities parse_quantity policy
      → (pod : Pod Q) → (b : Bool) × ((apply_policy_resources parse_quantity pod policy).1 ≡ ok b)
  unfolding apply_policy_resources
  apply_policy_resources-valid v pod = fill_containers-valid v pod.containers false

  pub apply_policy_resources-full :
      (pod : Pod Q)
      → All (IsSaturated policy) pod.containers
      → apply_policy_resources parse_quantity pod policy
        ≡ (record pod { containers = map made pod.containers }, ok false)
  unfolding apply_policy_resources
  apply_policy_resources-full pod h = ground (arith, fill_containers-full pod.containers false h)

  -- A success reports no mutation exactly when no container left out a resource that the policy
  -- has a default for.
  pub apply_policy_resources-unmutated_iff :
      (pod : Pod Q)
      → ((apply_policy_resources parse_quantity pod policy).1 ≡ ok false)
        ↔ All (IsSaturated policy) pod.containers
  unfolding apply_policy_resources
  apply_policy_resources-unmutated_iff pod = (
    fill_containers-unmutated pod.containers,
    λ h.
        ap (λ (r : List (Container Q) × Result Error Bool). r.1)
          (fill_containers-full pod.containers false h),
  )

  -- Failing or not, it only adds resources to containers.
  pub apply_policy_resources-Grows :
      (pod : Pod Q)
      → Zip Grows pod.containers (apply_policy_resources parse_quantity pod policy).0.containers
  unfolding apply_policy_resources
  apply_policy_resources-Grows pod = fill_containers-Grows pod.containers false

  IsSaturated-of_done :
      (cs cs' : List (Container Q)) → Zip IsDone cs cs' → All (IsSaturated policy) cs'
  IsSaturated-of_done [] [] z = tt
  IsSaturated-of_done [] (_ ∷ _) z = absurd z
  IsSaturated-of_done (_ ∷ _) [] z = absurd z
  IsSaturated-of_done (c ∷ cs) (c' ∷ cs') (here, z) = (here.1, IsSaturated-of_done cs cs' z)

  pub apply_policy_resources-IsSaturated :
      (pod : Pod Q) (b : Bool)
      → (apply_policy_resources parse_quantity pod policy).1 ≡ ok b
      → All (IsSaturated policy) (apply_policy_resources parse_quantity pod policy).0.containers
  apply_policy_resources-IsSaturated pod b h =
      IsSaturated-of_done pod.containers _ (apply_policy_resources-ok pod b h)

  pub labels-apply_policy_resources :
      (pod : Pod Q) → (apply_policy_resources parse_quantity pod policy).0.labels ≡ pod.labels
  unfolding apply_policy_resources
  labels-apply_policy_resources pod = refl
