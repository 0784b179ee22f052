-- ===== src/Admission/Endpoints.antt =====
-- What the telemetry webhook lets through and the mutating webhook injects.
use platform_governance_oper.Prelude.{
  String, ◌≡◌, sym, ap, ◌∙◌, subst, ◌⊎◌, inl, inr, false, none, some, Option, List, [], ◌∷◌, map,
  arith, Zip, All, eq_iff, Option-cases,
}
use platform_governance_oper.Api.{WorkloadPolicy, TelemetryProfile}
use platform_governance_oper.Kube.{EnvVar, Container, Pod, Progress}
use platform_governance_oper.PolicyWebhook.{Parsers, validate_telemetry_profile_spec}
use platform_governance_oper.PolicyWebhook.Others.{
  IsEndpoint, IsRate, validate_telemetry_profile_spec-none_iff,
}
use platform_governance_oper.Telemetry.{apply_telemetry, otlp_endpoint, sampler_arg, is_inactive}
use platform_governance_oper.Telemetry.Values.{
  env_value, offered, first_offered, with_env, inject_all, inject_all-env_value,
  apply_telemetry-containers,
}
use platform_governance_oper.Mutator.{mutate}
use platform_governance_oper.Admission.Bare.{environments, apply_policies-env}

-- A variable that keeps its value, or that the container lacked and that now has a value with
-- this property.
abbrev pub KeepsOrGets : (String → Type 0) → String → List EnvVar → List EnvVar → Type 0
KeepsOrGets P k env env' =
    (env_value k env' ≡ env_value k env)
    ⊎ ((env_value k env ≡ none) × (value : String) × (env_value k env' ≡ some value) × P value)

module _ {F : Type 0} (parsers : Parsers F) where
  offered-IsEndpoint :
      (profile : TelemetryProfile) (value : String)
      → validate_telemetry_profile_spec parsers profile ≡ none
      → offered otlp_endpoint profile ≡ some value
      → IsEndpoint parsers value
  unfolding is_inactive
  offered-IsEndpoint profile value valid given =
      elim ((validate_telemetry_profile_spec-none_iff parsers profile).0 valid).0 [
        | inl empty ↦ absurd (ground (arith, empty, given, eq_iff profile.spec.tracing_endpoint ""))
        | inr good ↦
            let same : profile.spec.tracing_endpoint ≡ value = ground (arith, given) in
            subst (IsEndpoint parsers) same good
      ]

  offered-IsRate :
      (profile : TelemetryProfile) (value : String)
      → validate_telemetry_profile_spec parsers profile ≡ none
      → offered sampler_arg profile ≡ some value
      → IsRate parsers value
  unfolding is_inactive
  offered-IsRate profile value valid given =
      elim ((validate_telemetry_profile_spec-none_iff parsers profile).0 valid).1 [
        | inl empty ↦ absurd (ground (arith, empty, given, eq_iff profile.spec.sampling_rate ""))
        | inr good ↦
            let same : profile.spec.sampling_rate ≡ value = ground (arith, given) in
            subst (IsRate parsers) same good
      ]

  -- What every profile offers has a property, if each offers only such values.
  first_offered_all :
      (P : String → Type 0) (k : String) (profiles : List TelemetryProfile) (value : String)
      → All (λ p. (v : String) → offered k p ≡ some v → P v) profiles
      → first_offered k profiles ≡ some value
      → P value
  first_offered_all P k [] value h given = absurd cc
  first_offered_all P k (p ∷ profiles) value (here, h) given = elim (Option-cases (offered k p)) [
    | inl nothing ↦ first_offered_all P k profiles value h (ground (arith, nothing, given))
    | inr (v, something) ↦ here value (ground (arith, something, given))
  ]

  All-offered :
      (P : String → Type 0) (k : String) (profiles : List TelemetryProfile)
      → ((p : TelemetryProfile) (v : String)
          → validate_telemetry_profile_spec parsers p ≡ none
          → offered k p ≡ some v
          → P v)
      → All (λ p. validate_telemetry_profile_spec parsers p ≡ none) profiles
      → All (λ p. (v : String) → offered k p ≡ some v → P v) profiles
  All-offered P k [] rule h = tt
  All-offered P k (p ∷ profiles) rule (here, h) =
      ((λ v. rule p v here), All-offered P k profiles rule h)

  KeepsOrGets-inject_all :
      (P : String → Type 0) (k : String) (profiles : List TelemetryProfile) (env : List EnvVar)
      → All (λ p. (v : String) → offered k p ≡ some v → P v) profiles
      → KeepsOrGets P k env (inject_all profiles env)
  KeepsOrGets-inject_all P k profiles env h =
      let value = inject_all-env_value k profiles env in
      elim (Option-cases (env_value k env)) [
        | inr (v, had) ↦ inl (ground (arith, value, had))
        | inl missing ↦ elim (Option-cases (first_offered k profiles)) [
          | inl nothing ↦ inl (ground (arith, value, missing, nothing))
          | inr (v, given) ↦ inr (
            missing,
            v,
            ground (arith, value, missing, given),
            first_offered_all P k profiles v h given,
          )
        ]
      ]

  inject_all-environments :
      {Q : Type 0} (P : String → Type 0) (k : String) (profiles : List TelemetryProfile)
      (cs : List (Container Q))
      → All (λ p. (v : String) → offered k p ≡ some v → P v) profiles
      → Zip
          (KeepsOrGets P k)
          (map (λ c. c.env) cs)
          (map (λ c. c.env) (map (with_env (inject_all profiles)) cs))
  inject_all-environments P k profiles [] h = tt
  inject_all-environments P k profiles (c ∷ cs) h =
      (KeepsOrGets-inject_all P k profiles c.env h, inject_all-environments P k profiles cs h)

module _ {F Q : Type 0} (parsers : Parsers F) (parse_quantity : String → Option Q) where
  environments-mutate :
      (P : String → Type 0) (k : String) (profiles : List TelemetryProfile)
      (policies : List WorkloadPolicy) (pod : Pod Q)
      → All (λ p. (v : String) → offered k p ≡ some v → P v) profiles
      → Zip
          (KeepsOrGets P k)
          (environments pod)
          (environments (mutate parse_quantity profiles policies pod).pod)
  unfolding mutate
  environments-mutate P k profiles policies pod h =
      let start : Progress Q = record { pod = pod; mutated = false; events = [] } in
      let same =
        apply_policies-env parse_quantity policies (apply_telemetry profiles start)
        ∙ ap environments (apply_telemetry-containers profiles start) in
      subst (Zip (KeepsOrGets P k) (environments pod)) (sym same)
        (inject_all-environments parsers P k profiles pod.containers h)

  -- With profiles that the telemetry webhook accepts, each container of the mutated pod keeps the
  -- endpoint and the sampling rate of its environment, or it had none and gets an endpoint that is
  -- an http or https URL and a rate that parses and is neither below 0 nor above 1.
  pub mutate-KeepsOrGets :
      (profiles : List TelemetryProfile) (policies : List WorkloadPolicy) (pod : Pod Q)
      → All (λ p. validate_telemetry_profile_spec parsers p ≡ none) profiles
      → Zip
          (KeepsOrGets (IsEndpoint parsers) otlp_endpoint)
          (environments pod)
          (environments (mutate parse_quantity profiles policies pod).pod)
        × Zip
            (KeepsOrGets (IsRate parsers) sampler_arg)
            (environments pod)
            (environments (mutate parse_quantity profiles policies pod).pod)
  mutate-KeepsOrGets profiles policies pod valid = (
    environments-mutate (IsEndpoint parsers) otlp_endpoint profiles policies pod (
        All-offered parsers (IsEndpoint parsers) otlp_endpoint profiles (offered-IsEndpoint parsers)
          valid),
    environments-mutate (IsRate parsers) sampler_arg profiles policies pod
        (All-offered parsers (IsRate parsers) sampler_arg profiles (offered-IsRate parsers) valid),
  )
