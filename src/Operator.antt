-- ===== src/Operator.antt =====
-- cmd/main.go: the options of the servers, the order of the set-up, and the exit of the process.
-- Logging and `init`, which fills the scheme, are left out.
pub mod Serving
pub mod Started
mod Tests
use platform_governance_oper.Prelude.{
  ℕ, String, ◌==◌, Bool, true, false, not, Option, none, some, List, [], ◌∷◌, if◌then◌else◌, Result,
  ok, err,
}
use platform_governance_oper.Kube.{Error}
use platform_governance_oper.Setup.{
  Registration, healthz_check, readyz_check, Manager, Registered, register,
  setup_security_baseline_reconciler, setup_workload_policy_reconciler,
  setup_telemetry_profile_reconciler, setup_security_baseline_webhook,
  setup_workload_policy_webhook, setup_telemetry_profile_webhook, setup_pod_webhook,
  setup_pod_mutator_webhook,
}

-- The variables that the flags set.
pub record Flags : Type 0 where
  pub metrics_addr : String
  pub probe_addr : String
  pub enable_leader_election : Bool
  pub secure_metrics : Bool
  pub webhook_cert_path : String
  pub webhook_cert_name : String
  pub webhook_cert_key : String
  pub metrics_cert_path : String
  pub metrics_cert_name : String
  pub metrics_cert_key : String
  pub enable_http2 : Bool

abbrev pub default_flags : Flags
default_flags = record {
  metrics_addr = "0";
  probe_addr = ":8081";
  enable_leader_election = false;
  secure_metrics = true;
  webhook_cert_path = "";
  webhook_cert_name = "tls.crt";
  webhook_cert_key = "tls.key";
  metrics_cert_path = "";
  metrics_cert_name = "tls.crt";
  metrics_cert_key = "tls.key";
  enable_http2 = false;
}

-- Of `tls.Config`, what the code writes.
pub record TlsConfig : Type 0 where
  pub next_protos : List String

abbrev pub disable_http2 : TlsConfig → TlsConfig
disable_http2 c = record c { next_protos = "http/1.1" ∷ [] }

pub tls_opts : Flags → List (TlsConfig → TlsConfig)
tls_opts flags = if not flags.enable_http2 then disable_http2 ∷ [] else []

-- `webhook.Options`; an option that is not set is empty.
pub record WebhookOptions : Type 0 where
  pub tls_opts : List (TlsConfig → TlsConfig)
  pub cert_dir : String
  pub cert_name : String
  pub key_name : String

pub webhook_server_options : Flags → WebhookOptions
webhook_server_options flags =
    if flags.webhook_cert_path == ""
    then record { tls_opts = tls_opts flags; cert_dir = ""; cert_name = ""; key_name = "" }
    else record {
      tls_opts = tls_opts flags;
      cert_dir = flags.webhook_cert_path;
      cert_name = flags.webhook_cert_name;
      key_name = flags.webhook_cert_key;
    }

-- `filters.WithAuthenticationAndAuthorization`, the one filter that the code names.
pub data FilterProvider : Type 0 where
  with_authentication_and_authorization : FilterProvider

-- `metricsserver.Options`
pub record MetricsOptions : Type 0 where
  pub bind_address : String
  pub secure_serving : Bool
  pub tls_opts : List (TlsConfig → TlsConfig)
  pub filter_provider : Option FilterProvider
  pub cert_dir : String
  pub cert_name : String
  pub key_name : String

pub metrics_server_options : Flags → MetricsOptions
metrics_server_options flags =
    let options : MetricsOptions = record {
      bind_address = flags.metrics_addr;
      secure_serving = flags.secure_metrics;
      tls_opts = tls_opts flags;
      filter_provider =
          if flags.secure_metrics then some with_authentication_and_authorization else none;
      cert_dir = "";
      cert_name = "";
      key_name = "";
    } in
    if flags.metrics_cert_path == "" then options else record options {
      cert_dir = flags.metrics_cert_path;
      cert_name = flags.metrics_cert_name;
      key_name = flags.metrics_cert_key;
    }

-- `ctrl.Options`, without the scheme.
pub record ManagerOptions : Type 0 where
  pub metrics : MetricsOptions
  pub webhook_server : WebhookOptions
  pub health_probe_bind_address : String
  pub leader_election : Bool
  pub leader_election_id : String

pub manager_options : Flags → ManagerOptions
manager_options flags = record {
  metrics = metrics_server_options flags;
  webhook_server = webhook_server_options flags;
  health_probe_bind_address = flags.probe_addr;
  leader_election = flags.enable_leader_election;
  leader_election_id = "23c1d61a.platform.f3nr1r.io";
}

-- The manager's calls before and after the registrations: `GetConfigOrDie` and `NewManager`, where
-- both failures end the process with 1, and `Start`.
pub record Runtime (Q Raw : Type 0) : Type 0 where
  pub new_manager : ManagerOptions → Result Error (Manager Q Raw)
  pub start : Manager Q Raw → List (Registration Q Raw) → Option Error

-- How `main` ends: with what registrations the manager was started, if it was, and the exit code.
pub record Exit (Q Raw : Type 0) : Type 0 where
  pub started : Option (List (Registration Q Raw))
  pub code : ℕ

module _ {Q Raw : Type 0} where
  -- `if err := …; err != nil { os.Exit(1) }`, before what follows.
  infixl 5 ◌>>=◌
  abbrev pub ◌>>=◌ :
      Result Error (List (Registration Q Raw))
      → (List (Registration Q Raw) → Result Error (List (Registration Q Raw)))
      → Result Error (List (Registration Q Raw))
  ok done >>= next = next done
  err e >>= next = err e

  -- The set-up under `os.Getenv("ENABLE_WEBHOOKS") != "false"`.
  pub setup_webhooks :
      Manager Q Raw → List (Registration Q Raw) → Result Error (List (Registration Q Raw))
  setup_webhooks mgr done =
      setup_security_baseline_webhook mgr done
      >>= setup_workload_policy_webhook mgr
      >>= setup_telemetry_profile_webhook mgr
      >>= setup_pod_webhook mgr
      >>= setup_pod_mutator_webhook mgr

  -- All of the set-up, in order.
  pub setup : Manager Q Raw → (enable_webhooks : String) → Result Error (List (Registration Q Raw))
  setup mgr enable_webhooks =
      setup_security_baseline_reconciler mgr []
      >>= setup_workload_policy_reconciler mgr
      >>= setup_telemetry_profile_reconciler mgr
      >>= (λ done. if not (enable_webhooks == "false") then setup_webhooks mgr done else ok done)
      >>= register mgr (healthz_check "healthz")
      >>= register mgr (readyz_check "readyz")

  abbrev exit_early : Exit Q Raw
  exit_early = record { started = none; code = 1 }

  pub main : Flags → (enable_webhooks : String) → Runtime Q Raw → Exit Q Raw
  main flags enable_webhooks runtime = elim (runtime.new_manager (manager_options flags)) [
    | err _ ↦ exit_early
    | ok mgr ↦ elim (setup mgr enable_webhooks) [
      | err _ ↦ exit_early
      | ok registered ↦ elim (runtime.start mgr registered) [
        | some _ ↦ record { started = some registered; code = 1 }
        | none ↦ record { started = some registered; code = 0 }
      ]
    ]
  ]
