-- ===== src/Admission/Bare.antt =====
-- What the mutating webhook may change of a pod: labels, environments and resources.
use platform_governance_oper.Prelude.{
  String, ◌≡◌, refl, ap, ◌∙◌, false, none, Option, List, [], ◌∷◌, map, Zip,
}
use platform_governance_oper.Api.{WorkloadPolicy, TelemetryProfile}
use platform_governance_oper.Kube.{EnvVar, Container, Pod, Progress}
use platform_governance_oper.Defaults.{apply_policy_labels, apply_policy_resources}
use platform_governance_oper.Defaults.Resources.{Grows}
use platform_governance_oper.Defaults.Containers.{apply_policy_resources-Grows}
use platform_governance_oper.Telemetry.{apply_telemetry}
use platform_governance_oper.Telemetry.Values.{with_env, inject_all, apply_telemetry-containers}
use platform_governance_oper.Mutator.{policy_round, apply_policies, mutate}
use platform_governance_oper.Mutator.Settled.{labelled, policy_round-pod}

module _ {Q : Type 0} where
  abbrev pub bare : Container Q → Container Q
  bare c = record c { env = []; requests = none; limits = none }

  -- The pod without its labels, and its containers without environments and resources.
  abbrev pub bare_pod : Pod Q → Pod Q
  bare_pod pod = record pod { labels = none; containers = map bare pod.containers }

  -- The environments of a pod's containers.
  abbrev pub environments : Pod Q → List (List EnvVar)
  environments pod = map (λ c. c.env) pod.containers

  Grows-bare : (cs cs' : List (Container Q)) → Zip Grows cs cs' → map bare cs' ≡ map bare cs
  Grows-bare [] [] z = refl
  Grows-bare [] (_ ∷ _) z = absurd z
  Grows-bare (_ ∷ _) [] z = absurd z
  Grows-bare (c ∷ cs) (c' ∷ cs') (g, z) = λ i. bare (g.rest i) ∷ Grows-bare cs cs' z i

  Grows-env :
      (cs cs' : List (Container Q))
      → Zip Grows cs cs'
      → ◌≡◌ {A = List (List EnvVar)} (map (λ c. c.env) cs') (map (λ c. c.env) cs)
  Grows-env [] [] z = refl
  Grows-env [] (_ ∷ _) z = absurd z
  Grows-env (_ ∷ _) [] z = absurd z
  Grows-env (c ∷ cs) (c' ∷ cs') (g, z) = λ i. (g.rest i).env ∷ Grows-env cs cs' z i

  with_env-bare :
      (f : List EnvVar → List EnvVar) (cs : List (Container Q))
      → map bare (map (with_env f) cs) ≡ map bare cs
  with_env-bare f [] = refl
  with_env-bare f (c ∷ cs) = ap (◌∷◌ (bare c)) (with_env-bare f cs)

module _ {Q : Type 0} (parse_quantity : String → Option Q) where
  policy_round-bare_pod :
      (policy : WorkloadPolicy) (s : Progress Q)
      → bare_pod (policy_round parse_quantity policy s).pod ≡ bare_pod s.pod
  unfolding apply_policy_resources apply_policy_labels
  policy_round-bare_pod policy s =
      let pod' = labelled parse_quantity s.pod policy in
      let cs' = (apply_policy_resources parse_quantity pod' policy).0.containers in
      let same =
        Grows-bare s.pod.containers cs' (apply_policy_resources-Grows parse_quantity policy pod') in
      ap bare_pod (policy_round-pod parse_quantity policy s) ∙ λ i. record (bare_pod s.pod) {
        containers = same i;
      }

  policy_round-env :
      (policy : WorkloadPolicy) (s : Progress Q)
      → environments (policy_round parse_quantity policy s).pod ≡ environments s.pod
  unfolding apply_policy_resources apply_policy_labels
  policy_round-env policy s =
      let pod' = labelled parse_quantity s.pod policy in
      ap environments (policy_round-pod parse_quantity policy s)
      ∙ Grows-env s.pod.containers _ (apply_policy_resources-Grows parse_quantity policy pod')

  apply_policies-bare_pod :
      (policies : List WorkloadPolicy) (s : Progress Q)
      → bare_pod (apply_policies parse_quantity policies s).pod ≡ bare_pod s.pod
  unfolding apply_policies
  apply_policies-bare_pod [] s = refl
  apply_policies-bare_pod (policy ∷ policies) s =
      apply_policies-bare_pod policies (policy_round parse_quantity policy s)
      ∙ policy_round-bare_pod policy s

  pub apply_policies-env :
      (policies : List WorkloadPolicy) (s : Progress Q)
      → environments (apply_policies parse_quantity policies s).pod ≡ environments s.pod
  unfolding apply_policies
  apply_policies-env [] s = refl
  apply_policies-env (policy ∷ policies) s =
      apply_policies-env policies (policy_round parse_quantity policy s) ∙ policy_round-env policy s

  -- The mutating webhook changes nothing of a pod but its labels and the environments and resources
  -- of its containers, whether or not resources fail.
  pub mutate-bare_pod :
      (profiles : List TelemetryProfile) (policies : List WorkloadPolicy) (pod : Pod Q)
      → bare_pod (mutate parse_quantity profiles policies pod).pod ≡ bare_pod pod
  unfolding mutate
  mutate-bare_pod profiles policies pod =
      let start : Progress Q = record { pod = pod; mutated = false; events = [] } in
      apply_policies-bare_pod policies (apply_telemetry profiles start)
      ∙ ap bare_pod (apply_telemetry-containers profiles start)
      ∙ λ i. record (bare_pod pod) {
        containers = with_env-bare (inject_all profiles) pod.containers i;
      }
