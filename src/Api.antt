-- ===== src/Api.antt =====
-- The custom resources of api/v1alpha1 (workloadpolicy_types.go, telemetryprofile_types.go,
-- securitybaseline_types.go). Pointers are `Option`, and Go maps are `GoMap`.
-- Of the metadata and of a condition the model has the fields that the operator reads or writes.
use platform_governance_oper.Prelude.{String, Bool, Option, List, GoMap, ℤ, pos}

pub record ObjectMeta : Type 0 where
  pub name : String
  pub namespace : String
  pub uid : String
  pub generation : ℤ

pub record Condition : Type 0 where
  pub type : String
  pub status : String
  pub reason : String
  pub message : String
  pub observed_generation : ℤ

pub record HorizontalScalingPolicy : Type 0 where
  pub enabled_by_default : Bool
  pub min_replicas : ℤ
  pub max_replicas : ℤ
  pub target_cpu_utilization_percentage : ℤ

-- `DefaultHPAMinReplicas`, `DefaultHPAMaxReplicas`, `DefaultHPATargetCPU`
abbrev pub default_hpa_min_replicas : ℤ
default_hpa_min_replicas = pos 2

abbrev pub default_hpa_max_replicas : ℤ
default_hpa_max_replicas = pos 10

abbrev pub default_hpa_target_cpu : ℤ
default_hpa_target_cpu = pos 80

pub record WorkloadPolicySpec : Type 0 where
  pub default_requests : GoMap String
  pub default_limits : GoMap String
  pub mandatory_labels : GoMap String
  pub priority : ℤ
  pub horizontal_scaling : Option HorizontalScalingPolicy

pub record WorkloadPolicyStatus : Type 0 where
  pub conditions : List Condition

pub record WorkloadPolicy : Type 0 where
  pub meta : ObjectMeta
  pub spec : WorkloadPolicySpec
  pub status : WorkloadPolicyStatus

pub record TelemetryProfileSpec : Type 0 where
  pub tracing_endpoint : String
  pub inject_env_vars : Bool
  pub sampling_rate : String
  pub priority : ℤ

pub record TelemetryProfileStatus : Type 0 where
  pub conditions : List Condition

pub record TelemetryProfile : Type 0 where
  pub meta : ObjectMeta
  pub spec : TelemetryProfileSpec
  pub status : TelemetryProfileStatus

pub record SecurityBaselineSpec : Type 0 where
  pub run_as_non_root : Bool
  pub read_only_root_filesystem : Bool
  pub excluded_namespaces : List String

pub record SecurityBaselineStatus : Type 0 where
  pub conditions : List Condition

pub record SecurityBaseline : Type 0 where
  pub meta : ObjectMeta
  pub spec : SecurityBaselineSpec
  pub status : SecurityBaselineStatus
