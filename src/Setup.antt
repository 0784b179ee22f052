-- ===== src/Setup.antt =====
-- How the operator's parts register with the controller-runtime manager: `SetupWithManager` of the
-- three controllers (internal/controller), `Setup…WebhookWithManager` of the webhooks
-- (internal/webhook), and the map from a Deployment to reconcile requests.
mod Tests
pub mod Watch
use platform_governance_oper.Prelude.{
  String, Bool, Option, none, some, List, [], ◌∷◌, ◌++◌, map, Result, ok, err,
}
use platform_governance_oper.Api.{WorkloadPolicy, SecurityBaseline, TelemetryProfile}
use platform_governance_oper.Kube.{Pod, Error, Request}
use platform_governance_oper.Validator.{PodValidator}
use platform_governance_oper.Mutator.{PodMutator}
use platform_governance_oper.Reconcile.{NamespacedName, Client}

-- What a server calls at a path: `webhook.Admission` with one of the two handlers.
pub data Handler (Q Raw : Type 0) : Type 0 where
  validating : PodValidator Q Raw → Handler Q Raw
  mutating : PodMutator Q Raw → Handler Q Raw

-- One registration: `NewControllerManagedBy … Complete`, with the kind reconciled, the kinds watched
-- besides and the name; `NewWebhookManagedBy … Complete` with a validator and a defaulter for a
-- kind; `GetWebhookServer().Register`; and the two checks, both `healthz.Ping`.
pub data Registration (Q Raw : Type 0) : Type 0 where
  controller : (kind : String) (watches : List String) (name : String) → Registration Q Raw
  resource_webhook : (kind : String) → Registration Q Raw
  pod_webhook : (path : String) → Handler Q Raw → Registration Q Raw
  healthz_check : (name : String) → Registration Q Raw
  readyz_check : (name : String) → Registration Q Raw

-- What the operator has of controller-runtime: whether the manager takes a registration after
-- others, and the manager's client, the decoder for its scheme, and the libraries that the pod
-- webhooks call.
pub record Manager (Q Raw : Type 0) : Type 0 where
  pub refuses : List (Registration Q Raw) → Registration Q Raw → Option Error
  pub new_decoder : Request Raw → Result Error (Pod Q)
  pub list_baselines : String → Result Error (List SecurityBaseline)
  pub list_policies : String → Result Error (List WorkloadPolicy)
  pub list_profiles : String → Result Error (List TelemetryProfile)
  pub marshal : Pod Q → Result Error Raw
  pub parse_quantity : String → Option Q
  pub sort_policies :
      (WorkloadPolicy → WorkloadPolicy → Bool) → List WorkloadPolicy → List WorkloadPolicy
  pub sort_profiles :
      (TelemetryProfile → TelemetryProfile → Bool) → List TelemetryProfile → List TelemetryProfile

-- `EnqueueRequestsFromMapFunc` of the WorkloadPolicy controller: a reconcile request for each policy
-- of the namespace of the Deployment that changed, and none if the policies cannot be listed.
pub requests_for : {W : Type 0} → Client W → (namespace : String) → W → List NamespacedName
requests_for client namespace w = elim (client.list_policies namespace w) [
  | err _ ↦ []
  | ok policies ↦ map (λ policy. (policy.meta.namespace, policy.meta.name)) policies
]

module _ {Q Raw : Type 0} (mgr : Manager Q Raw) where
  -- What has been registered so far, or the first error.
  abbrev pub Registered : Type 0
  Registered = Result Error (List (Registration Q Raw))

  -- A call that may fail, such as `Complete`.
  abbrev pub register : Registration Q Raw → List (Registration Q Raw) → Registered
  register r done = elim (mgr.refuses done r) [ some e ↦ err e | none ↦ ok (done ++ r ∷ []) ]

  -- `SetupWithManager` of the controllers.
  unfoldable pub setup_security_baseline_reconciler : List (Registration Q Raw) → Registered
  setup_security_baseline_reconciler =
      register (controller "SecurityBaseline" [] "securitybaseline")

  unfoldable pub setup_workload_policy_reconciler : List (Registration Q Raw) → Registered
  setup_workload_policy_reconciler =
      register (controller "WorkloadPolicy" ("Deployment" ∷ []) "workloadpolicy")

  unfoldable pub setup_telemetry_profile_reconciler : List (Registration Q Raw) → Registered
  setup_telemetry_profile_reconciler =
      register (controller "TelemetryProfile" [] "telemetryprofile")

  -- `SetupSecurityBaselineWebhookWithManager` and the like
  unfoldable pub setup_security_baseline_webhook : List (Registration Q Raw) → Registered
  setup_security_baseline_webhook = register (resource_webhook "SecurityBaseline")

  unfoldable pub setup_workload_policy_webhook : List (Registration Q Raw) → Registered
  setup_workload_policy_webhook = register (resource_webhook "WorkloadPolicy")

  unfoldable pub setup_telemetry_profile_webhook : List (Registration Q Raw) → Registered
  setup_telemetry_profile_webhook = register (resource_webhook "TelemetryProfile")

  -- The handlers that the two functions below make.
  abbrev pub pod_validator : PodValidator Q Raw
  pod_validator = record { decoder = some mgr.new_decoder; list_baselines = mgr.list_baselines }

  abbrev pub pod_mutator : PodMutator Q Raw
  pod_mutator = record {
    decoder = some mgr.new_decoder;
    list_policies = mgr.list_policies;
    list_profiles = mgr.list_profiles;
    marshal = mgr.marshal;
    parse_quantity = mgr.parse_quantity;
    sort_policies = mgr.sort_policies;
    sort_profiles = mgr.sort_profiles;
  }

  -- `SetupPodWebhookWithManager`; `Register` gives no error.
  unfoldable pub setup_pod_webhook : List (Registration Q Raw) → Registered
  setup_pod_webhook done =
      ok (done ++ pod_webhook "/validate-core-v1-pod" (validating pod_validator) ∷ [])

  -- `SetupPodMutatorWebhookWithManager`
  unfoldable pub setup_pod_mutator_webhook : List (Registration Q Raw) → Registered
  setup_pod_mutator_webhook done =
      ok (done ++ pod_webhook "/mutate-core-v1-pod" (mutating pod_mutator) ∷ [])
