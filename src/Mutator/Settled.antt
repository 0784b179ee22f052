-- ===== src/Mutator/Settled.antt =====
-- A pod that the mutating webhook leaves as it is, and why its own result is such a pod.
use platform_governance_oper.Prelude.{
  String, ◌≡◌, refl, ap, ◌∙◌, Bool, false, Option, some, List, [], ◌∷◌, arith, All, Zip, ok,
  entries, subst,
}
use platform_governance_oper.Api.{WorkloadPolicy, TelemetryProfile}
use platform_governance_oper.Kube.{Pod, Progress}
use platform_governance_oper.Defaults.{apply_policy_labels, apply_policy_resources}
use platform_governance_oper.Defaults.Labels.{
  apply_policy_labels-full, apply_policy_labels-HasKeys, apply_policy_labels-Extends,
  containers-apply_policy_labels,
}
use platform_governance_oper.Defaults.Resources.{Grows, HasValidQuantities}
use platform_governance_oper.Defaults.Containers.{
  apply_policy_resources-full, apply_policy_resources-valid, apply_policy_resources-IsSaturated,
  labels-apply_policy_resources, apply_policy_resources-Grows,
}
use platform_governance_oper.Telemetry.{apply_telemetry}
use platform_governance_oper.Telemetry.Again.{
  AreTraced, apply_telemetry-traced, apply_telemetry-AreTraced,
}
use platform_governance_oper.Mutator.{policy_round, apply_policies, mutate}
use platform_governance_oper.Mutator.Grows.{
  IsSettled, PodGrows, AreTraced-Grows, IsSettled-PodGrows, made_pod, IsSettled-made_pod,
}

module _ {Q : Type 0} (parse_quantity : String → Option Q) where
  abbrev pub labelled : Pod Q → WorkloadPolicy → Pod Q
  labelled pod policy = (apply_policy_labels pod policy).0

  -- What a round does to the pod does not depend on whether the resources fail.
  pub policy_round-pod :
      (policy : WorkloadPolicy) (s : Progress Q)
      → (policy_round parse_quantity policy s).pod
        ≡ (apply_policy_resources parse_quantity (labelled s.pod policy) policy).0
  unfolding policy_round
  policy_round-pod policy s = ground arith

  pub policy_round-settled :
      (policy : WorkloadPolicy) (s : Progress Q)
      → IsSettled s.pod policy
      → policy_round parse_quantity policy s ≡ record s { pod = made_pod s.pod }
  unfolding policy_round
  policy_round-settled policy s h =
      let first = apply_policy_labels-full s.pod policy h.labelled in
      let second : apply_policy_resources parse_quantity (labelled s.pod policy) policy
          ≡ (made_pod s.pod, ok false) =
        ap (λ (r : Pod Q × Bool). apply_policy_resources parse_quantity r.0 policy) first
        ∙ apply_policy_resources-full parse_quantity policy
            (record s.pod { labels = some (entries s.pod.labels) }) h.saturated in
      ground (arith, first, second)

  -- Policies that have nothing left to give report nothing and record nothing.
  apply_policies-settled :
      (policies : List WorkloadPolicy) (s : Progress Q)
      → All (IsSettled s.pod) policies
      → ((apply_policies parse_quantity policies s).mutated ≡ s.mutated)
        × ((apply_policies parse_quantity policies s).events ≡ s.events)
  unfolding apply_policies
  apply_policies-settled [] s h = (refl, refl)
  apply_policies-settled (policy ∷ policies) s (here, h) =
      rw (policy_round-settled policy s here, apply_policies)
        (apply_policies-settled policies (record s { pod = made_pod s.pod })
          (IsSettled-made_pod s.pod policies h))

  -- A round only adds to the pod, also where the resources fail.
  policy_round-PodGrows :
      (policy : WorkloadPolicy) (s : Progress Q)
      → PodGrows s.pod (policy_round parse_quantity policy s).pod
  policy_round-PodGrows policy s =
      let pod' = labelled s.pod policy in
      rw (policy_round-pod policy s) (record {
        labels =
            rw (labels-apply_policy_resources parse_quantity policy pod')
              (apply_policy_labels-Extends s.pod policy);
        containers =
            subst
              (λ cs. Zip Grows cs (apply_policy_resources parse_quantity pod' policy).0.containers)
              (containers-apply_policy_labels s.pod policy)
              (apply_policy_resources-Grows parse_quantity policy pod');
      })

  policy_round-IsSettled :
      (policy : WorkloadPolicy) (s : Progress Q)
      → HasValidQuantities parse_quantity policy
      → IsSettled (policy_round parse_quantity policy s).pod policy
  policy_round-IsSettled policy s v =
      let pod' = labelled s.pod policy in
      let (b, good) = apply_policy_resources-valid parse_quantity policy v pod' in
      rw (policy_round-pod policy s) (record {
        labelled =
            rw (labels-apply_policy_resources parse_quantity policy pod')
              (apply_policy_labels-HasKeys s.pod policy);
        saturated = apply_policy_resources-IsSaturated parse_quantity policy pod' b good;
      })

  -- What a pod has already, it keeps through all rounds.
  apply_policies-keeps :
      (P : Pod Q → Type 0)
      → ((pod pod' : Pod Q) → PodGrows pod pod' → P pod → P pod')
      → (policies : List WorkloadPolicy) (s : Progress Q) → P s.pod
      → P (apply_policies parse_quantity policies s).pod
  unfolding apply_policies
  apply_policies-keeps P mono [] s h = h
  apply_policies-keeps P mono (policy ∷ policies) s h =
      apply_policies-keeps P mono policies (policy_round parse_quantity policy s)
        (mono s.pod (policy_round parse_quantity policy s).pod (policy_round-PodGrows policy s) h)

  pub apply_policies-IsSettled :
      (policies : List WorkloadPolicy) (s : Progress Q)
      → All (HasValidQuantities parse_quantity) policies
      → All (IsSettled (apply_policies parse_quantity policies s).pod) policies
  unfolding apply_policies
  apply_policies-IsSettled [] s v = tt
  apply_policies-IsSettled (policy ∷ policies) s (valid, v) =
      let s' = policy_round parse_quantity policy s in
      (
        apply_policies-keeps (λ pod. IsSettled pod policy) (λ pod pod' g h. IsSettled-PodGrows g h)
            policies s' (policy_round-IsSettled policy s valid),
        apply_policies-IsSettled policies s' v,
      )

  AreTraced-PodGrows :
      (profiles : List TelemetryProfile) (pod pod' : Pod Q)
      → PodGrows pod pod'
      → All (AreTraced pod.containers) profiles
      → All (AreTraced pod'.containers) profiles
  AreTraced-PodGrows [] pod pod' g h = tt
  AreTraced-PodGrows (profile ∷ profiles) pod pod' g (here, h) = (
    AreTraced-Grows profile pod.containers pod'.containers g.containers here,
    AreTraced-PodGrows profiles pod pod' g h,
  )

  -- In the mutated pod each container has what each profile adds.
  pub mutate-traces :
      (profiles : List TelemetryProfile) (policies : List WorkloadPolicy) (pod : Pod Q)
      → All (AreTraced (mutate parse_quantity profiles policies pod).pod.containers) profiles
  unfolding mutate
  mutate-traces profiles policies pod =
      let start : Progress Q = record { pod = pod; mutated = false; events = [] } in
      apply_policies-keeps (λ p. All (AreTraced p.containers) profiles)
        (AreTraced-PodGrows profiles) policies (apply_telemetry profiles start)
        (apply_telemetry-AreTraced profiles start)

  -- If every policy's quantities parse, a second run of the webhook over its own result mutates
  -- nothing and records no event.
  pub mutate-mutate :
      (profiles : List TelemetryProfile) (policies : List WorkloadPolicy) (pod : Pod Q)
      → All (HasValidQuantities parse_quantity) policies
      → ((mutate parse_quantity profiles policies
            (mutate parse_quantity profiles policies pod).pod).mutated
          ≡ false)
        × ((mutate parse_quantity profiles policies
              (mutate parse_quantity profiles policies pod).pod).events
            ≡ [])
  unfolding mutate
  mutate-mutate profiles policies pod v =
      let start : Progress Q = record { pod = pod; mutated = false; events = [] } in
      let traced = apply_telemetry profiles start in
      let done = apply_policies parse_quantity policies traced in
      let again : Progress Q = record { pod = done.pod; mutated = false; events = [] } in
      rw (apply_telemetry-traced profiles again (mutate-traces profiles policies pod))
        (apply_policies-settled policies again (apply_policies-IsSettled policies traced v))
