-- ===== src/Telemetry.antt =====
-- internal/webhook/core/pod_mutating_webhook.go: `applyTelemetry`, the injection of environment
-- variables. What the Go code changes in place, a function here returns.
pub mod Values
pub mod Again
pub mod Unmutated
mod Tests
use platform_governance_oper.Prelude.{
  String, ◌<>◌, ◌==◌, Bool, true, false, not, ◌||◌, List, [], ◌∷◌, ◌++◌, if◌then◌else◌,
}
use platform_governance_oper.Api.{TelemetryProfile}
use platform_governance_oper.Kube.{EnvVar, Container, Pod, Event, Progress}

abbrev pub otlp_endpoint : String
otlp_endpoint = "OTEL_EXPORTER_OTLP_ENDPOINT"

abbrev pub sampler_arg : String
sampler_arg = "OTEL_TRACES_SAMPLER_ARG"

-- `containerHasEnvVar`
unfoldable pub container_has_env_var : List EnvVar → String → Bool
container_has_env_var [] key = false
container_has_env_var (e ∷ envs) key =
    let rest = container_has_env_var envs key in if e.name == key then true else rest

-- `if !containerHasEnvVar(env, key) { env = append(env, …) }`, with whether it appended.
unfoldable pub append_if_missing : String → String → List EnvVar → List EnvVar × Bool
append_if_missing key value env =
    if container_has_env_var env key
    then (env, false)
    else (env ++ record { name = key; value = value } ∷ [], true)

-- The body of the loop over containers in `applyTelemetry`.
unfoldable pub inject_env : TelemetryProfile → List EnvVar → List EnvVar × Bool
inject_env profile env =
    let (env', endpoint) = append_if_missing otlp_endpoint profile.spec.tracing_endpoint env in
    let (env'', sampler) =
      (if profile.spec.sampling_rate == ""
        then (env', false)
        else append_if_missing sampler_arg profile.spec.sampling_rate env') in
    (env'', endpoint || sampler)

-- `!profile.Spec.InjectEnvVars || profile.Spec.TracingEndpoint == ""`
unfoldable pub is_inactive : TelemetryProfile → Bool
is_inactive profile = not profile.spec.inject_env_vars || profile.spec.tracing_endpoint == ""

module _ {Q : Type 0} where
  -- The loop over containers in `applyTelemetry`, for one profile.
  unfoldable pub inject_containers :
      TelemetryProfile → List (Container Q) → List (Container Q) × Bool
  inject_containers profile [] = ([], false)
  inject_containers profile (c ∷ cs) =
      let (env, here) = inject_env profile c.env in
      let (cs', later) = inject_containers profile cs in
      (record c { env = env } ∷ cs', here || later)

  abbrev pub telemetry_event : Pod Q → TelemetryProfile → Event
  telemetry_event pod profile = record {
    about = profile.meta;
    event_type = "Normal";
    reason = "PodMutated";
    message = "Injected telemetry config to Pod " <> pod.name <> " in namespace " <> pod.namespace;
  }

  -- One round of the loop of `applyTelemetry`.
  unfoldable pub telemetry_round : TelemetryProfile → Progress Q → Progress Q
  telemetry_round profile s =
      if is_inactive profile
      then s
      else (let (containers, changed) = inject_containers profile s.pod.containers in
          let pod' : Pod Q = record s.pod { containers = containers } in
          if changed
          then record {
            pod = pod';
            mutated = true;
            events = s.events ++ telemetry_event s.pod profile ∷ [];
          }
          else record s { pod = pod' })

  -- `applyTelemetry`
  unfoldable pub apply_telemetry : List TelemetryProfile → Progress Q → Progress Q
  apply_telemetry [] s = s
  apply_telemetry (profile ∷ profiles) s = apply_telemetry profiles (telemetry_round profile s)
