-- ===== src/Mutator/Unmutated.antt =====
-- What the mutating webhook reports: a pod that it does not mutate had all that the policies give.
use platform_governance_oper.Prelude.{
  String, ◌≡◌, ap, ◌∙◌, subst, false, ◌||◌, Option, List, [], ◌∷◌, map, arith, ok, All, Bool-cases,
  inl, inr,
}
use platform_governance_oper.Api.{WorkloadPolicy, TelemetryProfile}
use platform_governance_oper.Kube.{Container, Pod, Progress, EnvVar}
use platform_governance_oper.Defaults.{apply_policy_labels}
use platform_governance_oper.Defaults.Labels.{
  apply_policy_labels-unmutated_iff, containers-apply_policy_labels,
}
use platform_governance_oper.Defaults.Resources.{IsSaturated, made, HasValidQuantities}
use platform_governance_oper.Defaults.Containers.{
  apply_policy_resources-valid, apply_policy_resources-unmutated_iff,
}
use platform_governance_oper.Telemetry.{apply_telemetry}
use platform_governance_oper.Telemetry.Again.{AreTraced}
use platform_governance_oper.Telemetry.Unmutated.{apply_telemetry-unmutated}
use platform_governance_oper.Telemetry.Values.{with_env, inject_all, apply_telemetry-containers}
use platform_governance_oper.Mutator.{policy_round, apply_policies, mutate}
use platform_governance_oper.Mutator.Grows.{IsSettled, made_pod}
use platform_governance_oper.Mutator.Settled.{
  labelled, policy_round-settled, apply_policies-IsSettled,
}

module _ {Q : Type 0} where
  IsSaturated-of_made :
      (policy : WorkloadPolicy) (cs : List (Container Q))
      → All (IsSaturated policy) (map made cs)
      → All (IsSaturated policy) cs
  IsSaturated-of_made policy [] h = tt
  IsSaturated-of_made policy (c ∷ cs) (here, h) = (here, IsSaturated-of_made policy cs h)

  pub IsSettled-of_made :
      (pod : Pod Q) (policies : List WorkloadPolicy)
      → All (IsSettled (made_pod pod)) policies
      → All (IsSettled pod) policies
  IsSettled-of_made pod [] h = tt
  IsSettled-of_made pod (policy ∷ policies) (here, h) = (
    record {
      labelled = here.labelled;
      saturated = IsSaturated-of_made policy pod.containers here.saturated;
    },
    IsSettled-of_made pod policies h,
  )

  IsSaturated-of_env :
      (f : List EnvVar → List EnvVar) (policy : WorkloadPolicy) (cs : List (Container Q))
      → All (IsSaturated policy) (map (with_env f) cs)
      → All (IsSaturated policy) cs
  IsSaturated-of_env f policy [] h = tt
  IsSaturated-of_env f policy (c ∷ cs) (here, h) = (here, IsSaturated-of_env f policy cs h)

  -- Telemetry gives nothing of what policies give.
  IsSettled-of_telemetry :
      (profiles : List TelemetryProfile) (s : Progress Q) (policies : List WorkloadPolicy)
      → All (IsSettled (apply_telemetry profiles s).pod) policies
      → All (IsSettled s.pod) policies
  IsSettled-of_telemetry profiles s [] h = tt
  IsSettled-of_telemetry profiles s (policy ∷ policies) (here, h) =
      let back = rw (apply_telemetry-containers profiles s) at here in
      (
        record {
          labelled = back.labelled;
          saturated =
              IsSaturated-of_env (inject_all profiles) policy s.pod.containers back.saturated;
        },
        IsSettled-of_telemetry profiles s policies h,
      )

module _ {Q : Type 0} (parse_quantity : String → Option Q) where
  policy_round-unmutated :
      (policy : WorkloadPolicy) (s : Progress Q)
      → HasValidQuantities parse_quantity policy
      → (policy_round parse_quantity policy s).mutated ≡ false
      → (s.mutated ≡ false) × IsSettled s.pod policy
  unfolding policy_round
  policy_round-unmutated policy s v kept =
      let (b, good) =
        apply_policy_resources-valid parse_quantity policy v
          (labelled parse_quantity s.pod policy) in
      elim (Bool-cases ((apply_policy_labels s.pod policy).1 || b)) [
        | inl changed ↦ absurd (ground (arith, good, changed, kept))
        | inr same ↦
            let no_label : (apply_policy_labels s.pod policy).1 ≡ false = ground (arith, same) in
            let no_resource : b ≡ false = ground (arith, same) in
            (
              ground (arith, good, same, kept),
              record {
                labelled = (apply_policy_labels-unmutated_iff s.pod policy).0 no_label;
                saturated =
                    subst (All (IsSaturated policy)) (containers-apply_policy_labels s.pod policy) (
                      (apply_policy_resources-unmutated_iff parse_quantity policy
                          (labelled parse_quantity s.pod policy)).0
                        (good ∙ ap ok no_resource));
              },
            )
      ]

  apply_policies-unmutated :
      (policies : List WorkloadPolicy) (s : Progress Q)
      → All (HasValidQuantities parse_quantity) policies
      → (apply_policies parse_quantity policies s).mutated ≡ false
      → (s.mutated ≡ false) × All (IsSettled s.pod) policies
  unfolding apply_policies
  apply_policies-unmutated [] s v kept = (kept, tt)
  apply_policies-unmutated (policy ∷ policies) s (valid, v) kept =
      let (first, later) =
        apply_policies-unmutated policies (policy_round parse_quantity policy s) v kept in
      let (before, here) = policy_round-unmutated policy s valid first in
      let made : (policy_round parse_quantity policy s).pod ≡ made_pod s.pod =
        ap (λ (t : Progress Q). t.pod) (policy_round-settled parse_quantity policy s here) in
      (
        before,
        (
          here,
          IsSettled-of_made s.pod policies (subst (λ pod. All (IsSettled pod) policies) made later),
        ),
      )

  pub mutate-settles :
      (profiles : List TelemetryProfile) (policies : List WorkloadPolicy) (pod : Pod Q)
      → All (HasValidQuantities parse_quantity) policies
      → All (IsSettled (mutate parse_quantity profiles policies pod).pod) policies
  unfolding mutate
  mutate-settles profiles policies pod v =
      apply_policies-IsSettled parse_quantity policies
        (apply_telemetry profiles (record { pod = pod; mutated = false; events = [] })) v

  pub mutate-unmutated :
      (profiles : List TelemetryProfile) (policies : List WorkloadPolicy) (pod : Pod Q)
      → All (HasValidQuantities parse_quantity) policies
      → (mutate parse_quantity profiles policies pod).mutated ≡ false
      → All (IsSettled pod) policies
  unfolding mutate
  mutate-unmutated profiles policies pod v kept =
      let start : Progress Q = record { pod = pod; mutated = false; events = [] } in
      IsSettled-of_telemetry profiles start policies
        (apply_policies-unmutated policies (apply_telemetry profiles start) v kept).1

  pub AreTraced-of_unmutated :
      (profiles : List TelemetryProfile) (policies : List WorkloadPolicy) (pod : Pod Q)
      → All (HasValidQuantities parse_quantity) policies
      → (mutate parse_quantity profiles policies pod).mutated ≡ false
      → All (AreTraced pod.containers) profiles
  unfolding mutate
  AreTraced-of_unmutated profiles policies pod v kept =
      let start : Progress Q = record { pod = pod; mutated = false; events = [] } in
      apply_telemetry-unmutated profiles start
        (apply_policies-unmutated policies (apply_telemetry profiles start) v kept).0
