-- ===== src/Telemetry/Values.antt =====
-- `applyTelemetry`: the environment that each container ends with.
use mathlib.Core.List.{map-map, map-id}
use platform_governance_oper.Prelude.{
  String, ◌==◌, ◌≡◌, refl, true, false, Option, none, some, List, [], ◌∷◌, ◌++◌, map, arith,
  Bool-cases, inl, inr, first_of, if◌then◌else◌, eq_iff,
}
use platform_governance_oper.Api.{TelemetryProfile}
use platform_governance_oper.Kube.{EnvVar, Container, Progress}
use platform_governance_oper.Telemetry.{
  otlp_endpoint, sampler_arg, container_has_env_var, append_if_missing, inject_env, is_inactive,
  inject_containers, telemetry_round, apply_telemetry,
}

-- The value of a variable in an environment.
abbrev pub env_value : String → List EnvVar → Option String
env_value k [] = none
env_value k (e ∷ env) = if e.name == k then some e.value else env_value k env

container_has_env_var-eq-true :
    (k : String) (env : List EnvVar)
    → container_has_env_var env k ≡ true
    → (v : String) × (env_value k env ≡ some v)
unfolding container_has_env_var
container_has_env_var-eq-true k [] h = cc
container_has_env_var-eq-true k (e ∷ env) h = elim (Bool-cases (e.name == k)) [
  | inl same ↦ (e.value, rw same)
  | inr other ↦ rw other (container_has_env_var-eq-true k env (rw other at h))
]

container_has_env_var-eq-false :
    (k : String) (env : List EnvVar) → container_has_env_var env k ≡ false → env_value k env ≡ none
unfolding container_has_env_var
container_has_env_var-eq-false k [] h = refl
container_has_env_var-eq-false k (e ∷ env) h = ground (arith, container_has_env_var-eq-false k env)

env_value-append :
    (k : String) (env env' : List EnvVar)
    → env_value k (env ++ env') ≡ first_of (env_value k env) (env_value k env')
env_value-append k [] env' = refl
env_value-append k (e ∷ env) env' = ground (arith, env_value-append k env env')

append_if_missing-env_value :
    (j k v : String) (env : List EnvVar)
    → env_value j (append_if_missing k v env).0
      ≡ (if k == j then first_of (env_value j env) (some v) else env_value j env)
unfolding append_if_missing
append_if_missing-env_value j k v env = elim (Bool-cases (container_has_env_var env k)) [
  | inl there ↦
      let (w, found) = container_has_env_var-eq-true k env there in
      rw there (ground (arith, found, eq_iff k j))
  | inr missing ↦ rw missing (
      ground (
        arith,
        env_value-append j env (record { name = k; value = v } ∷ []),
        container_has_env_var-eq-false k env missing,
        eq_iff k j,
      ))
]

-- What one profile gives a variable that a container lacks.
abbrev pub offered : String → TelemetryProfile → Option String
offered k profile =
    if is_inactive profile
    then none
    else if otlp_endpoint == k
    then some profile.spec.tracing_endpoint
    else if sampler_arg == k
    then (if profile.spec.sampling_rate == "" then none else some profile.spec.sampling_rate)
    else none

-- What the profiles give, the first that gives anything coming first.
abbrev pub first_offered : String → List TelemetryProfile → Option String
first_offered k [] = none
first_offered k (profile ∷ profiles) = first_of (offered k profile) (first_offered k profiles)

inject_env-env_value :
    (k : String) (profile : TelemetryProfile) (env : List EnvVar)
    → is_inactive profile ≡ false
    → env_value k (inject_env profile env).0 ≡ first_of (env_value k env) (offered k profile)
unfolding inject_env
inject_env-env_value k profile env on =
    let env' = (append_if_missing otlp_endpoint profile.spec.tracing_endpoint env).0 in
    ground (
      arith,
      on,
      append_if_missing-env_value k otlp_endpoint profile.spec.tracing_endpoint env,
      append_if_missing-env_value k sampler_arg profile.spec.sampling_rate env',
      eq_iff otlp_endpoint k,
      eq_iff sampler_arg k,
      eq_iff otlp_endpoint sampler_arg,
    )

-- What one profile does to the environment of one container, and what all do.
abbrev pub inject : TelemetryProfile → List EnvVar → List EnvVar
inject profile env = if is_inactive profile then env else (inject_env profile env).0

abbrev pub inject_all : List TelemetryProfile → List EnvVar → List EnvVar
inject_all [] env = env
inject_all (profile ∷ profiles) env = inject_all profiles (inject profile env)

pub inject_all-env_value :
    (k : String) (profiles : List TelemetryProfile) (env : List EnvVar)
    → env_value k (inject_all profiles env) ≡ first_of (env_value k env) (first_offered k profiles)
inject_all-env_value k [] env = ground arith
inject_all-env_value k (profile ∷ profiles) env = elim (Bool-cases (is_inactive profile)) [
  | inl off ↦ rw off (ground (arith, off, inject_all-env_value k profiles env))
  | inr on ↦ rw on (
      ground (
        arith,
        on,
        inject_all-env_value k profiles (inject_env profile env).0,
        inject_env-env_value k profile env on,
      ))
]

module _ {Q : Type 0} where
  -- A container with another environment.
  abbrev pub with_env : (List EnvVar → List EnvVar) → Container Q → Container Q
  with_env f c = record c { env = f c.env }

  inject_containers-map :
      (profile : TelemetryProfile) (cs : List (Container Q))
      → (inject_containers profile cs).0 ≡ map (with_env (λ env. (inject_env profile env).0)) cs
  unfolding inject_containers
  inject_containers-map profile [] = refl
  inject_containers-map profile (c ∷ cs) = rw (inject_containers-map profile cs)

  telemetry_round-containers :
      (profile : TelemetryProfile) (s : Progress Q)
      → (telemetry_round profile s).pod ≡ record s.pod {
        containers =
            map
              (with_env (λ env. if is_inactive profile then env else (inject_env profile env).0))
              s.pod.containers;
      }
  unfolding telemetry_round
  telemetry_round-containers profile s = elim (Bool-cases (is_inactive profile)) [
    | inl off ↦ rw off (rw map-id refl)
    | inr on ↦ rw on (rw (← inject_containers-map profile s.pod.containers) (ground arith))
  ]

  -- The loops over profiles and containers give each container what the profiles give it alone,
  -- and change nothing else of the pod.
  pub apply_telemetry-containers :
      (profiles : List TelemetryProfile) (s : Progress Q)
      → (apply_telemetry profiles s).pod
        ≡ record s.pod { containers = map (with_env (inject_all profiles)) s.pod.containers }
  unfolding apply_telemetry
  apply_telemetry-containers [] s = rw map-id refl
  apply_telemetry-containers (profile ∷ profiles) s =
      rw (apply_telemetry-containers profiles (telemetry_round profile s))
        (rw (telemetry_round-containers profile s) (rw map-map refl))

  -- In every container a variable keeps its value, else takes the first value that an active
  -- profile offers for it, in the order of the profiles.
  pub apply_telemetry-env_value :
      (profiles : List TelemetryProfile) (s : Progress Q) (k : String)
      → map (λ c. env_value k c.env) (apply_telemetry profiles s).pod.containers
        ≡ map (λ c. first_of (env_value k c.env) (first_offered k profiles)) s.pod.containers
  apply_telemetry-env_value profiles s k =
      rw (apply_telemetry-containers profiles s) (rw map-map (values s.pod.containers))
    where
      values :
          (cs : List (Container Q))
          → map (λ c. env_value k (inject_all profiles c.env)) cs
            ≡ map (λ c. first_of (env_value k c.env) (first_offered k profiles)) cs
      values [] = refl
      values (c ∷ cs) = rw (inject_all-env_value k profiles c.env) (rw (values cs))
