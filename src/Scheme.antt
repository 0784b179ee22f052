-- ===== src/Scheme.antt =====
-- The types that the scheme knows: api/v1alpha1/groupversion_info.go, the `init` functions of
-- api/v1alpha1/*_types.go and that of cmd/main.go.
pub mod Known
mod Tests
use platform_governance_oper.Prelude.{String, Option, none, some, List, [], ◌∷◌, Result, ok, err}
use platform_governance_oper.Kube.{Error}

-- `schema.GroupVersion`
pub record GroupVersion : Type 0 where
  pub group : String
  pub version : String

abbrev pub group_version : GroupVersion
group_version = record { group = "core.platform.f3nr1r.io"; version = "v1alpha1" }

-- What the code has of apimachinery, client-go and `scheme.Builder` of controller-runtime. A type is
-- given by its kind.
pub record Library (Scheme Builder : Type 0) : Type 0 where
  pub new_scheme : Scheme
  pub new_builder : GroupVersion → Builder
  pub register : List String → Builder → Builder
  pub add_builder_to_scheme : Builder → Scheme → Result Error Scheme
  pub add_client_go_to_scheme : Scheme → Result Error Scheme

module _ {Scheme Builder : Type 0} (lib : Library Scheme Builder) where
  -- `init` of securitybaseline_types.go
  unfoldable pub register_security_baseline : Builder → Builder
  register_security_baseline = lib.register ("SecurityBaseline" ∷ "SecurityBaselineList" ∷ [])

  -- `init` of telemetryprofile_types.go
  unfoldable pub register_telemetry_profile : Builder → Builder
  register_telemetry_profile = lib.register ("TelemetryProfile" ∷ "TelemetryProfileList" ∷ [])

  -- `init` of workloadpolicy_types.go
  unfoldable pub register_workload_policy : Builder → Builder
  register_workload_policy = lib.register ("WorkloadPolicy" ∷ "WorkloadPolicyList" ∷ [])

  -- `SchemeBuilder` once the package is initialised, its files in the order of their names.
  unfoldable pub scheme_builder : Builder
  scheme_builder =
      register_workload_policy
        (register_telemetry_profile (register_security_baseline (lib.new_builder group_version)))

  -- `AddToScheme`
  unfoldable pub add_to_scheme : Scheme → Result Error Scheme
  add_to_scheme = lib.add_builder_to_scheme scheme_builder

  -- `utilruntime.Must`, and then what follows; `none` is a panic.
  abbrev pub must : Result Error Scheme → (Scheme → Option Scheme) → Option Scheme
  must (ok scheme) next = next scheme
  must (err e) next = none

  -- `init` of main.go, and the scheme that it leaves
  unfoldable pub init : Option Scheme
  init =
      must (lib.add_client_go_to_scheme lib.new_scheme) (λ scheme. must (add_to_scheme scheme) some)
