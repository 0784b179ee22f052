-- ===== src/Telemetry/Tests.antt =====
-- Tests of `applyTelemetry`.
use platform_governance_oper.Prelude.{ℕ, ◌≡◌, refl, [], ◌∷◌, some, false, map}
use platform_governance_oper.Kube.{Container, Progress}
use platform_governance_oper.Telemetry.{
  container_has_env_var, append_if_missing, inject_env, is_inactive, inject_containers,
  telemetry_round, apply_telemetry, sampler_arg,
}
use platform_governance_oper.Telemetry.Values.{env_value, apply_telemetry-env_value}
use platform_governance_oper.Samples.{pod, profile}

abbrev start : Progress ℕ
start = record { pod = pod; mutated = false; events = [] }

injects_sampling_rate :
    map
      (λ (c : Container ℕ). env_value sampler_arg c.env)
      (apply_telemetry (profile ∷ []) start).pod.containers
    ≡ some "0.5" ∷ []
unfolding apply_telemetry telemetry_round inject_containers inject_env append_if_missing
    container_has_env_var is_inactive
injects_sampling_rate = refl

apply_telemetry-env_value_example :
    map
      (λ (c : Container ℕ). env_value sampler_arg c.env)
      (apply_telemetry (profile ∷ profile ∷ []) start).pod.containers
    ≡ some "0.5" ∷ []
unfolding is_inactive
apply_telemetry-env_value_example =
    apply_telemetry-env_value (profile ∷ profile ∷ []) start sampler_arg
