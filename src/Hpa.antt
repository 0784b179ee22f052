-- ===== src/Hpa.antt =====
-- internal/controller/workloadpolicy_controller.go: the HorizontalPodAutoscaler that the operator
-- wants for a Deployment, and how it knows the ones that it manages. Of the autoscaling/v2 and
-- apps/v1 types the model has the fields that the code reads or writes, and the resource version,
-- which an update sends back as it was read.
pub mod Name
pub mod Differs
pub mod Drift
pub mod Enabled
mod Tests
use Prim.Native.String.{slice}
use platform_governance_oper.Prelude.{
  ℕ, ◌-◌, String, ◌<>◌, ◌==◌, len, ltb, Bool, true, false, not, ◌&&◌, ◌||◌, Option, none, some,
  List, [], ◌∷◌, if◌then◌else◌, Result, ok, err, GoMap, entries, lookup, insert, or_else, ℤ, pos,
  eqb_ℤ, trim_space, parse_bool, str_ltb, ltb_ℤ,
}
use platform_governance_oper.Api.{
  HorizontalScalingPolicy, WorkloadPolicy, default_hpa_min_replicas, default_hpa_max_replicas,
  default_hpa_target_cpu,
}
use platform_governance_oper.Kube.{Error, invalid_hpa_annotation}

abbrev pub deployment_hpa_enabled_annotation : String
deployment_hpa_enabled_annotation = "core.platform.f3nr1r.io/hpa-enabled"

abbrev pub managed_hpa_label_key : String
managed_hpa_label_key = "core.platform.f3nr1r.io/managed-hpa"

abbrev pub managed_hpa_label_value : String
managed_hpa_label_value = "true"

abbrev pub managed_hpa_workload_policy_annotation_key : String
managed_hpa_workload_policy_annotation_key = "core.platform.f3nr1r.io/workload-policy"

-- `corev1alpha1.GroupVersion.String()` and `appsv1.SchemeGroupVersion.String()`
abbrev pub group_version : String
group_version = "core.platform.f3nr1r.io/v1alpha1"

abbrev pub apps_group_version : String
apps_group_version = "apps/v1"

pub record Deployment : Type 0 where
  pub name : String
  pub namespace : String
  pub annotations : GoMap String

pub record OwnerReference : Type 0 where
  pub api_version : String
  pub kind : String
  pub name : String
  pub uid : String
  pub block_owner_deletion : Option Bool
  pub controller : Option Bool

pub record ScaleTargetRef : Type 0 where
  pub api_version : String
  pub kind : String
  pub name : String

pub record ResourceMetric : Type 0 where
  pub name : String
  pub target_type : String
  pub average_utilization : Option ℤ

pub record MetricSpec : Type 0 where
  pub type : String
  pub resource : Option ResourceMetric

pub record HpaSpec : Type 0 where
  pub scale_target_ref : ScaleTargetRef
  pub min_replicas : Option ℤ
  pub max_replicas : ℤ
  pub metrics : List MetricSpec

pub record Hpa : Type 0 where
  pub name : String
  pub namespace : String
  pub resource_version : String
  pub labels : GoMap String
  pub annotations : GoMap String
  pub owner_references : List OwnerReference
  pub spec : HpaSpec

-- `if x == 0 { x = d }`
abbrev pub non_zero_or : ℤ → ℤ → ℤ
non_zero_or d x = if eqb_ℤ x (pos 0) then d else x

-- `effectiveHorizontalScalingPolicy`
unfoldable pub effective_horizontal_scaling_policy :
    Option HorizontalScalingPolicy → HorizontalScalingPolicy
effective_horizontal_scaling_policy none = record {
  enabled_by_default = false;
  min_replicas = default_hpa_min_replicas;
  max_replicas = default_hpa_max_replicas;
  target_cpu_utilization_percentage = default_hpa_target_cpu;
}
effective_horizontal_scaling_policy (some h) = record h {
  min_replicas = non_zero_or default_hpa_min_replicas h.min_replicas;
  max_replicas = non_zero_or default_hpa_max_replicas h.max_replicas;
  target_cpu_utilization_percentage =
      non_zero_or default_hpa_target_cpu h.target_cpu_utilization_percentage;
}

abbrev pub name_suffix : String
name_suffix = "-pgo-hpa"

-- `managedHPAName`. `len` and `slice` go by bytes; a character that the cut would split is left out
-- whole, which makes no difference to the ASCII names of Deployments.
unfoldable pub managed_hpa_name : String → String
managed_hpa_name deployment_name =
    let max_base_len = 63 - len name_suffix in
    (if ltb max_base_len (len deployment_name)
      then slice deployment_name 0 max_base_len
      else deployment_name)
    <> name_suffix

-- `hpaEnabledForDeployment`
unfoldable pub hpa_enabled_for_deployment :
    Deployment → Option HorizontalScalingPolicy → Result Error Bool
hpa_enabled_for_deployment deployment hpa_policy =
    let enabled = (effective_horizontal_scaling_policy hpa_policy).enabled_by_default in
    elim (lookup deployment_hpa_enabled_annotation (entries deployment.annotations)) [
      | none ↦ ok enabled
      | some raw ↦ elim (parse_bool (trim_space raw)) [
        | none ↦ err (invalid_hpa_annotation deployment.namespace deployment.name raw)
        | some parsed ↦ ok parsed
      ]
    ]

-- `desiredHPAForDeployment`
unfoldable pub desired_hpa_for_deployment : WorkloadPolicy → Deployment → Hpa
desired_hpa_for_deployment policy deployment =
    let hpa_policy = effective_horizontal_scaling_policy policy.spec.horizontal_scaling in
    record {
      name = managed_hpa_name deployment.name;
      namespace = deployment.namespace;
      resource_version = "";
      labels = some ((managed_hpa_label_key, managed_hpa_label_value) ∷ []);
      annotations = some ((managed_hpa_workload_policy_annotation_key, policy.meta.name) ∷ []);
      owner_references =
          record {
            api_version = group_version;
            kind = "WorkloadPolicy";
            name = policy.meta.name;
            uid = policy.meta.uid;
            block_owner_deletion = some true;
            controller = some true;
          }
          ∷ [];
      spec = record {
        scale_target_ref = record {
          api_version = apps_group_version;
          kind = "Deployment";
          name = deployment.name;
        };
        min_replicas = some hpa_policy.min_replicas;
        max_replicas = hpa_policy.max_replicas;
        metrics =
            record {
              type = "Resource";
              resource = some (record {
                name = "cpu";
                target_type = "Utilization";
                average_utilization = some hpa_policy.target_cpu_utilization_percentage;
              });
            }
            ∷ [];
      };
    }

-- `isManagedHPA` at a pointer; a read of a nil map finds nothing, as its nil test says.
unfoldable pub is_managed_hpa : Option Hpa → Bool
is_managed_hpa none = false
is_managed_hpa (some hpa) = elim (lookup managed_hpa_label_key (entries hpa.labels)) [
  | none ↦ "" == managed_hpa_label_value
  | some v ↦ v == managed_hpa_label_value
]

-- `ensureManagedHPAMetadata`
unfoldable pub ensure_managed_hpa_metadata : Hpa → String → Hpa
ensure_managed_hpa_metadata hpa policy_name = record hpa {
  labels = some (insert managed_hpa_label_key managed_hpa_label_value (entries hpa.labels));
  annotations =
      some
        (insert managed_hpa_workload_policy_annotation_key policy_name (entries hpa.annotations));
}
