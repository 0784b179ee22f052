-- ===== src/DeepCopy/Functions.antt =====
-- Each function of zz_generated.deepcopy.go by its own name: `copy_…` for the DeepCopyInto and
-- `deep_copy_…` for the DeepCopy of a type, with its DeepCopyObject where it has one, which gives the
-- same copy or nil.
use platform_governance_oper.Prelude.{Option}
use platform_governance_oper.Api.{HorizontalScalingPolicy, TelemetryProfileSpec}
use platform_governance_oper.DeepCopy.Heap.{
  Ptr, PolicySpec, BaselineSpec, Status, Object, ObjectList, workload_policy, security_baseline,
  telemetry_profile, M,
}
use platform_governance_oper.DeepCopy.Copies.{
  copy_horizontal_scaling_policy, copy_workload_policy_spec, copy_security_baseline_spec,
  copy_telemetry_profile_spec, copy_status, copy_object, copy_list, deep_copy,
}

abbrev pub deep_copy_horizontal_scaling_policy :
    Option HorizontalScalingPolicy → M (Option HorizontalScalingPolicy)
deep_copy_horizontal_scaling_policy = deep_copy copy_horizontal_scaling_policy

abbrev pub deep_copy_workload_policy_spec :
    Option (PolicySpec Ptr Ptr) → M (Option (PolicySpec Ptr Ptr))
deep_copy_workload_policy_spec = deep_copy copy_workload_policy_spec

abbrev pub copy_workload_policy_status : Status Ptr → M (Status Ptr)
copy_workload_policy_status = copy_status

abbrev pub deep_copy_workload_policy_status : Option (Status Ptr) → M (Option (Status Ptr))
deep_copy_workload_policy_status = deep_copy copy_status

abbrev pub copy_workload_policy :
    Object (PolicySpec Ptr Ptr) Ptr → M (Object (PolicySpec Ptr Ptr) Ptr)
copy_workload_policy = copy_object copy_workload_policy_spec

abbrev pub deep_copy_workload_policy :
    Option (Object (PolicySpec Ptr Ptr) Ptr) → M (Option (Object (PolicySpec Ptr Ptr) Ptr))
deep_copy_workload_policy = deep_copy copy_workload_policy

abbrev pub copy_workload_policy_list : ObjectList Ptr → M (ObjectList Ptr)
copy_workload_policy_list = copy_list workload_policy

abbrev pub deep_copy_workload_policy_list : Option (ObjectList Ptr) → M (Option (ObjectList Ptr))
deep_copy_workload_policy_list = deep_copy copy_workload_policy_list

abbrev pub deep_copy_security_baseline_spec :
    Option (BaselineSpec Ptr) → M (Option (BaselineSpec Ptr))
deep_copy_security_baseline_spec = deep_copy copy_security_baseline_spec

abbrev pub copy_security_baseline_status : Status Ptr → M (Status Ptr)
copy_security_baseline_status = copy_status

abbrev pub deep_copy_security_baseline_status : Option (Status Ptr) → M (Option (Status Ptr))
deep_copy_security_baseline_status = deep_copy copy_status

abbrev pub copy_security_baseline :
    Object (BaselineSpec Ptr) Ptr → M (Object (BaselineSpec Ptr) Ptr)
copy_security_baseline = copy_object copy_security_baseline_spec

abbrev pub deep_copy_security_baseline :
    Option (Object (BaselineSpec Ptr) Ptr) → M (Option (Object (BaselineSpec Ptr) Ptr))
deep_copy_security_baseline = deep_copy copy_security_baseline

abbrev pub copy_security_baseline_list : ObjectList Ptr → M (ObjectList Ptr)
copy_security_baseline_list = copy_list security_baseline

abbrev pub deep_copy_security_baseline_list : Option (ObjectList Ptr) → M (Option (ObjectList Ptr))
deep_copy_security_baseline_list = deep_copy copy_security_baseline_list

abbrev pub deep_copy_telemetry_profile_spec :
    Option TelemetryProfileSpec → M (Option TelemetryProfileSpec)
deep_copy_telemetry_profile_spec = deep_copy copy_telemetry_profile_spec

abbrev pub copy_telemetry_profile_status : Status Ptr → M (Status Ptr)
copy_telemetry_profile_status = copy_status

abbrev pub deep_copy_telemetry_profile_status : Option (Status Ptr) → M (Option (Status Ptr))
deep_copy_telemetry_profile_status = deep_copy copy_status

abbrev pub copy_telemetry_profile :
    Object TelemetryProfileSpec Ptr → M (Object TelemetryProfileSpec Ptr)
copy_telemetry_profile = copy_object copy_telemetry_profile_spec

abbrev pub deep_copy_telemetry_profile :
    Option (Object TelemetryProfileSpec Ptr) → M (Option (Object TelemetryProfileSpec Ptr))
deep_copy_telemetry_profile = deep_copy copy_telemetry_profile

abbrev pub copy_telemetry_profile_list : ObjectList Ptr → M (ObjectList Ptr)
copy_telemetry_profile_list = copy_list telemetry_profile

abbrev pub deep_copy_telemetry_profile_list : Option (ObjectList Ptr) → M (Option (ObjectList Ptr))
deep_copy_telemetry_profile_list = deep_copy copy_telemetry_profile_list
