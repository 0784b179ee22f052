-- ===== src/Operator/Tests.antt =====
-- Tests of the process: the default flags, and a manager that takes every registration.
use platform_governance_oper.Prelude.{◌≡◌, ◌↔◌, refl, ℕ, true, some, none, List, [], ◌∷◌, ok}
use platform_governance_oper.Kube.{Pod}
use platform_governance_oper.Setup.{
  Registration, Manager, setup_security_baseline_reconciler, setup_workload_policy_reconciler,
  setup_telemetry_profile_reconciler, setup_security_baseline_webhook,
  setup_workload_policy_webhook, setup_telemetry_profile_webhook, setup_pod_webhook,
  setup_pod_mutator_webhook,
}
use platform_governance_oper.Operator.{
  default_flags, Runtime, with_authentication_and_authorization, manager_options, setup,
  setup_webhooks, main,
}
use platform_governance_oper.Operator.Serving.{configured, manager_options_lem}
use platform_governance_oper.Operator.Started.{IsReady, all_parts, main_lem}
use platform_governance_oper.Samples.{manager}

abbrev runtime : Runtime ℕ (Pod ℕ)
runtime = record { new_manager = λ _. ok manager; start = λ _ _. none }

ends_well : (main default_flags "" runtime).code ≡ 0
unfolding main setup setup_webhooks setup_security_baseline_reconciler
    setup_workload_policy_reconciler setup_telemetry_profile_reconciler
    setup_security_baseline_webhook setup_workload_policy_webhook setup_telemetry_profile_webhook
    setup_pod_webhook setup_pod_mutator_webhook
ends_well = refl

manager_options_lem_example :
    (configured
        (manager_options default_flags).webhook_server.tls_opts
        (record { next_protos = "h2" ∷ [] })
      ≡ record { next_protos = "http/1.1" ∷ [] })
    × (configured
          (manager_options default_flags).metrics.tls_opts
          (record { next_protos = "h2" ∷ [] })
        ≡ record { next_protos = "http/1.1" ∷ [] })
    × (((manager_options default_flags).metrics.filter_provider
          ≡ some with_authentication_and_authorization)
        ↔ ((manager_options default_flags).metrics.secure_serving ≡ true))
manager_options_lem_example = manager_options_lem default_flags (record { next_protos = "h2" ∷ [] })

main_lem_example :
    ((rs : List (Registration ℕ (Pod ℕ)))
      → ((main default_flags "" runtime).started ≡ some rs) ↔ (
          (mgr : Manager ℕ (Pod ℕ)) × IsReady default_flags "" runtime mgr
          × (rs ≡ all_parts mgr "")))
    × (((main default_flags "" runtime).code ≡ 0) ↔ (
        (mgr : Manager ℕ (Pod ℕ)) × IsReady default_flags "" runtime mgr
        × (runtime.start mgr (all_parts mgr "") ≡ none)))
main_lem_example = main_lem default_flags "" runtime
