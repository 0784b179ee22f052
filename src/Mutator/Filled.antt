-- ===== src/Mutator/Filled.antt =====
-- The requests and limits that all policies together give to a container.
use platform_governance_oper.Prelude.{
  String, ◌≡◌, refl, ap, ◌∙◌, Option, none, some, List, [], ◌∷◌, arith, All, Zip, entries, lookup,
  first_of, subst,
}
use platform_governance_oper.Api.{WorkloadPolicy}
use platform_governance_oper.Kube.{Container, Progress}
use platform_governance_oper.Defaults.{apply_policy_resources}
use platform_governance_oper.Defaults.Labels.{containers-apply_policy_labels}
use platform_governance_oper.Defaults.Fill.{parsed}
use platform_governance_oper.Defaults.Resources.{HasValidQuantities, IsFilled, requests, limits}
use platform_governance_oper.Defaults.Containers.{
  IsDone, apply_policy_resources-ok, apply_policy_resources-valid,
}
use platform_governance_oper.Mutator.{policy_round, apply_policies}
use platform_governance_oper.Mutator.Settled.{policy_round-pod, labelled}

module _ {Q : Type 0} (parse_quantity : String → Option Q) where
  -- The default for a resource, parsed, of the first policy that has one; `of` reads the policy's
  -- requests or its limits.
  abbrev pub first_quantity :
      (WorkloadPolicy → List (String × String)) → String → List WorkloadPolicy → Option Q
  first_quantity of k [] = none
  first_quantity of k (policy ∷ policies) =
      first_of (parsed parse_quantity (lookup k (of policy))) (first_quantity of k policies)

  -- Each quantity is the container's own, else the first default; nothing else differs.
  pub record IsFilledBy (policies : List WorkloadPolicy) (c c' : Container Q) : Type 0 where
    pub requested :
        (k : String)
        → lookup k (entries c'.requests)
          ≡ first_of (lookup k (entries c.requests)) (first_quantity requests k policies)
    pub limited :
        (k : String)
        → lookup k (entries c'.limits)
          ≡ first_of (lookup k (entries c.limits)) (first_quantity limits k policies)
    pub rest : c' ≡ record c { requests = c'.requests; limits = c'.limits }

  IsFilledBy-none : (c : Container Q) → IsFilledBy [] c c
  IsFilledBy-none c = record {
    requested = λ k. ground arith;
    limited = λ k. ground arith;
    rest = refl;
  }

  first_of_assoc :
      (a b c d e : Option Q) → d ≡ first_of a b → e ≡ first_of d c → e ≡ first_of a (first_of b c)
  first_of_assoc none b c d e h h' = cc
  first_of_assoc (some x) b c d e h h' = cc

  IsFilledBy-cons :
      (policy : WorkloadPolicy) (policies : List WorkloadPolicy) (a b c : Container Q)
      → IsFilled parse_quantity policy a b
      → IsFilledBy policies b c
      → IsFilledBy (policy ∷ policies) a c
  IsFilledBy-cons policy policies a b c f g = record {
    requested = λ k. first_of_assoc _ _ _ _ _ (f.requested k) (g.requested k);
    limited = λ k. first_of_assoc _ _ _ _ _ (f.limited k) (g.limited k);
    rest =
        g.rest
        ∙ ap (λ (d : Container Q). record d { requests = c.requests; limits = c.limits }) f.rest;
  }

  IsFilledBy-Zip :
      (policy : WorkloadPolicy) (policies : List WorkloadPolicy) (xs ys zs : List (Container Q))
      → Zip (IsDone parse_quantity policy) xs ys
      → Zip (IsFilledBy policies) ys zs
      → Zip (IsFilledBy (policy ∷ policies)) xs zs
  IsFilledBy-Zip policy policies [] [] [] z z' = tt
  IsFilledBy-Zip policy policies [] [] (_ ∷ _) z z' = absurd z'
  IsFilledBy-Zip policy policies [] (_ ∷ _) zs z z' = absurd z
  IsFilledBy-Zip policy policies (_ ∷ _) [] zs z z' = absurd z
  IsFilledBy-Zip policy policies (_ ∷ _) (_ ∷ _) [] z z' = absurd z'
  IsFilledBy-Zip policy policies (a ∷ xs) (b ∷ ys) (c ∷ zs) (h, z) (h', z') =
      (IsFilledBy-cons policy policies a b c h.0 h', IsFilledBy-Zip policy policies xs ys zs z z')

  IsFilledBy-all : (cs : List (Container Q)) → Zip (IsFilledBy []) cs cs
  IsFilledBy-all [] = tt
  IsFilledBy-all (c ∷ cs) = (IsFilledBy-none c, IsFilledBy-all cs)

  policy_round-IsDone :
      (policy : WorkloadPolicy) (s : Progress Q)
      → HasValidQuantities parse_quantity policy
      → Zip
          (IsDone parse_quantity policy)
          s.pod.containers
          (policy_round parse_quantity policy s).pod.containers
  policy_round-IsDone policy s v =
      let pod' = labelled parse_quantity s.pod policy in
      let (b, good) = apply_policy_resources-valid parse_quantity policy v pod' in
      rw (policy_round-pod parse_quantity policy s) (
        subst
          (λ cs.
            Zip (IsDone parse_quantity policy) cs
              (apply_policy_resources parse_quantity pod' policy).0.containers)
          (containers-apply_policy_labels s.pod policy)
          (apply_policy_resources-ok parse_quantity policy pod' b good))

  pub apply_policies-IsFilledBy :
      (policies : List WorkloadPolicy) (s : Progress Q)
      → All (HasValidQuantities parse_quantity) policies
      → Zip
          (IsFilledBy policies)
          s.pod.containers
          (apply_policies parse_quantity policies s).pod.containers
  unfolding apply_policies
  apply_policies-IsFilledBy [] s v = IsFilledBy-all s.pod.containers
  apply_policies-IsFilledBy (policy ∷ policies) s (valid, v) =
      IsFilledBy-Zip policy policies _ _ _ (policy_round-IsDone policy s valid)
        (apply_policies-IsFilledBy policies (policy_round parse_quantity policy s) v)
