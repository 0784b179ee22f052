-- ===== src/Mutator/Finished.antt =====
-- A pod that has all that the policies and the profiles give: what the mutating webhook makes of a
-- pod, and what a pod is that it leaves alone.
use platform_governance_oper.Prelude.{
  String, ◌≡◌, false, Option, List, [], ◌∷◌, map, All, subst, ap, refl, some, entries, ◌∙◌,
}
use platform_governance_oper.Api.{WorkloadPolicy, TelemetryProfile}
use platform_governance_oper.Kube.{Container, Pod, Progress}
use platform_governance_oper.Defaults.Resources.{made, HasValidQuantities}
use platform_governance_oper.Telemetry.{apply_telemetry}
use platform_governance_oper.Telemetry.Again.{AreTraced, apply_telemetry-traced}
use platform_governance_oper.Mutator.{apply_policies, mutate}
use platform_governance_oper.Mutator.Grows.{IsSettled, made_pod, IsSettled-made_pod}
use platform_governance_oper.Mutator.Settled.{mutate-traces, policy_round-settled}
use platform_governance_oper.Mutator.Unmutated.{
  IsSettled-of_made, mutate-settles, mutate-unmutated, AreTraced-of_unmutated,
}

module _ {Q : Type 0} where
  pub record IsFinished (policies : List WorkloadPolicy) (profiles : List TelemetryProfile)
      (pod : Pod Q) : Type 0 where
    pub settled : All (IsSettled pod) policies
    pub traced : All (AreTraced pod.containers) profiles

  AreTraced-of_made :
      (profile : TelemetryProfile) (cs : List (Container Q))
      → AreTraced (map made cs) profile
      → AreTraced cs profile
  AreTraced-of_made profile [] h = tt
  AreTraced-of_made profile (c ∷ cs) (here, h) = (here, AreTraced-of_made profile cs h)

  AreTraced-made :
      (profile : TelemetryProfile) (cs : List (Container Q))
      → AreTraced cs profile
      → AreTraced (map made cs) profile
  AreTraced-made profile [] h = tt
  AreTraced-made profile (c ∷ cs) (here, h) = (here, AreTraced-made profile cs h)

  AreTraced-like :
      (cs cs' : List (Container Q)) (profiles : List TelemetryProfile)
      → map made cs ≡ map made cs'
      → All (AreTraced cs) profiles
      → All (AreTraced cs') profiles
  AreTraced-like cs cs' [] like h = tt
  AreTraced-like cs cs' (profile ∷ profiles) like (here, h) = (
    AreTraced-of_made profile cs'
        (subst (λ ds. AreTraced ds profile) like (AreTraced-made profile cs here)),
    AreTraced-like cs cs' profiles like h,
  )

  made_idem : (cs : List (Container Q)) → map made (map made cs) ≡ map made cs
  made_idem [] = refl
  made_idem (c ∷ cs) = ap (λ ds. made c ∷ ds) (made_idem cs)

  made_pod_idem : (pod : Pod Q) → made_pod (made_pod pod) ≡ made_pod pod
  made_pod_idem pod =
      ap (λ cs. record pod { labels = some (entries pod.labels); containers = cs })
        (made_idem pod.containers)

  -- Pods that differ only in which of their maps are nil are finished together.
  pub IsFinished-like :
      (policies : List WorkloadPolicy) (profiles : List TelemetryProfile) (pod pod' : Pod Q)
      → made_pod pod ≡ made_pod pod'
      → IsFinished policies profiles pod
      → IsFinished policies profiles pod'
  IsFinished-like policies profiles pod pod' like h = record {
    settled =
        IsSettled-of_made pod' policies (
          subst (λ p. All (IsSettled p) policies) like (IsSettled-made_pod pod policies h.settled));
    traced =
        AreTraced-like pod.containers pod'.containers profiles
          (ap (λ (p : Pod Q). p.containers) like) h.traced;
  }

module _ {Q : Type 0} (parse_quantity : String → Option Q) where
  -- Policies that have nothing left to give only make nil maps.
  apply_policies-settled_like :
      (policies : List WorkloadPolicy) (s : Progress Q)
      → All (IsSettled s.pod) policies
      → made_pod (apply_policies parse_quantity policies s).pod ≡ made_pod s.pod
  unfolding apply_policies
  apply_policies-settled_like [] s h = refl
  apply_policies-settled_like (policy ∷ policies) s (here, h) =
      rw (policy_round-settled parse_quantity policy s here, apply_policies)
        (apply_policies-settled_like policies (record s { pod = made_pod s.pod })
            (IsSettled-made_pod s.pod policies h)
          ∙ made_pod_idem s.pod)

module _ {Q : Type 0} (parse_quantity : String → Option Q) (profiles : List TelemetryProfile)
    (policies : List WorkloadPolicy) (pod : Pod Q)
    (valid : All (HasValidQuantities parse_quantity) policies) where
  pub mutate-IsFinished :
      IsFinished policies profiles (mutate parse_quantity profiles policies pod).pod
  mutate-IsFinished = record {
    settled = mutate-settles parse_quantity profiles policies pod valid;
    traced = mutate-traces parse_quantity profiles policies pod;
  }

  -- A pod that is not mutated is as the mutated one, up to nil maps.
  pub mutate-unmutated_like :
      (mutate parse_quantity profiles policies pod).mutated ≡ false
      → made_pod (mutate parse_quantity profiles policies pod).pod ≡ made_pod pod
  unfolding mutate
  mutate-unmutated_like kept =
      let start : Progress Q = record { pod = pod; mutated = false; events = [] } in
      let same : apply_telemetry profiles start ≡ start =
        apply_telemetry-traced profiles start
          (AreTraced-of_unmutated parse_quantity profiles policies pod valid kept) in
      rw same (
        apply_policies-settled_like parse_quantity policies start
          (mutate-unmutated parse_quantity profiles policies pod valid kept))
