-- ===== src/PolicyWebhook/Workload.antt =====
-- WorkloadPolicy: what is admitted, and what the defaults do.
use platform_governance_oper.Prelude.{
  String, ◌≡◌, ◌≢◌, ◌↔◌, refl, ◌⊎◌, ok, Bool, Option, none, some, [], ◌∷◌, Entries, trim_space, ℤ,
  pos, ◌≤ℤ◌, arith, eq_iff, inl, inr, All, Option-cases,
}
use platform_governance_oper.Api.{
  HorizontalScalingPolicy, WorkloadPolicy, default_hpa_min_replicas, default_hpa_max_replicas,
  default_hpa_target_cpu,
}
use platform_governance_oper.Kube.{Pod}
use platform_governance_oper.Defaults.{apply_policy_resources}
use platform_governance_oper.Defaults.Fill.{Parses}
use platform_governance_oper.Defaults.Resources.{HasValidQuantities, requests, limits}
use platform_governance_oper.Defaults.Labels.{mandatory}
use platform_governance_oper.Defaults.Containers.{apply_policy_resources-valid}
use platform_governance_oper.PolicyWebhook.{
  ValidationError, ◌orelse◌, check_quantities, check_labels, check_horizontal_scaling, if_present,
  validate_workload_policy_spec, validate_workload_policy, create, update, default_workload_policy,
  fill_zeros, or_default,
}

-- The bounds that the controller relies on.
pub record IsInRange (h : HorizontalScalingPolicy) : Type 0 where
  pub min_pos : pos 1 ≤ℤ h.min_replicas
  pub max_pos : pos 1 ≤ℤ h.max_replicas
  pub ordered : h.min_replicas ≤ℤ h.max_replicas
  pub cpu_pos : pos 1 ≤ℤ h.target_cpu_utilization_percentage
  pub cpu_max : h.target_cpu_utilization_percentage ≤ℤ pos 100

-- Neither the key nor the value of a label is blank.
abbrev pub IsLabel : String × String → Type 0
IsLabel (key, value) = (trim_space key ≢ "") × (trim_space value ≢ "")

-- Where horizontal scaling is given, it is in range.
abbrev pub ScalingInRange : Option HorizontalScalingPolicy → Type 0
ScalingInRange none = Unit
ScalingInRange (some h) = IsInRange h

check_horizontal_scaling_iff :
    (h : HorizontalScalingPolicy) → (check_horizontal_scaling h ≡ none) ↔ IsInRange h
unfolding check_horizontal_scaling
check_horizontal_scaling_iff h = (
  λ e. record {
    min_pos = ground arith;
    max_pos = ground arith;
    ordered = ground arith;
    cpu_pos = ground arith;
    cpu_max = ground arith;
  },
  λ r. ground arith,
)

check_labels_iff : (ls : Entries String) → (check_labels ls ≡ none) ↔ All IsLabel ls
unfolding check_labels
check_labels_iff [] = (λ h. tt, λ h. refl)
check_labels_iff ((key, value) ∷ ls) =
    let key_iff = eq_iff (trim_space key) "" in
    let value_iff = eq_iff (trim_space value) "" in
    (
      λ h. (
        ((λ e. ground (arith, key_iff)), (λ e. ground (arith, key_iff, value_iff))),
        (check_labels_iff ls).0 (ground arith),
      ),
      λ ((k, v), h). ground (arith, key_iff, value_iff, (check_labels_iff ls).1 h),
    )

check_quantities_iff :
    {Q : Type 0} (parse_quantity : String → Option Q) (failed : String → String → ValidationError)
    (ds : Entries String)
    → (check_quantities parse_quantity failed ds ≡ none) ↔ Parses parse_quantity ds
unfolding check_quantities
check_quantities_iff parse failed [] = (λ h. tt, λ h. refl)
check_quantities_iff parse failed ((name, value) ∷ ds) =
    let (to, from) = check_quantities_iff parse failed ds in
    elim (Option-cases (parse value)) [
      | inl bad ↦ rw (bad, check_quantities) (λ h. cc, λ ((q, good), h). cc)
      | inr (q, good) ↦ rw (good, check_quantities) (λ h. ((q, refl), to h), λ (_, h). from h)
    ]

if_present_iff :
    (o : Option HorizontalScalingPolicy)
    → (if_present o check_horizontal_scaling ≡ none) ↔ ScalingInRange o
if_present_iff none = (λ h. tt, λ h. refl)
if_present_iff (some h) = check_horizontal_scaling_iff h

pub orelse_iff : (a b : Option ValidationError) → ((a orelse b) ≡ none) ↔ ((a ≡ none) × (b ≡ none))
orelse_iff none b = (λ h. (refl, h), λ h. h.1)
orelse_iff (some e) b = (λ h. cc, λ h. cc)

-- What an admitted WorkloadPolicy satisfies.
pub record IsAdmissible {Q : Type 0} (parse_quantity : String → Option Q) (obj : WorkloadPolicy)
    : Type 0 where
  pub quantities : HasValidQuantities parse_quantity obj
  pub labels : All IsLabel (mandatory obj)
  pub scaling : ScalingInRange obj.spec.horizontal_scaling

module _ {Q : Type 0} (parse_quantity : String → Option Q) where
  -- The validator accepts exactly the policies whose quantities all parse, whose labels have
  -- neither a blank key nor a blank value, and whose horizontal scaling, if any, has
  -- 1 ≤ min ≤ max replicas and a CPU target from 1 to 100.
  pub validate_workload_policy_spec-none_iff :
      (obj : WorkloadPolicy)
      → (validate_workload_policy_spec parse_quantity obj ≡ none) ↔ IsAdmissible parse_quantity obj
  unfolding validate_workload_policy_spec
  validate_workload_policy_spec-none_iff obj = (
    λ h.
        let (r, h1) = (orelse_iff _ _).0 h in
        let (l, h2) = (orelse_iff _ _).0 h1 in
        let (m, s) = (orelse_iff _ _).0 h2 in
        record {
          quantities = (
            (check_quantities_iff parse_quantity _ (requests obj)).0 r,
            (check_quantities_iff parse_quantity _ (limits obj)).0 l,
          );
          labels = (check_labels_iff (mandatory obj)).0 m;
          scaling = (if_present_iff obj.spec.horizontal_scaling).0 s;
        },
    λ a. (orelse_iff _ _).1 (
      (check_quantities_iff parse_quantity _ (requests obj)).1 a.quantities.0,
      (orelse_iff _ _).1 (
        (check_quantities_iff parse_quantity _ (limits obj)).1 a.quantities.1,
        (orelse_iff _ _).1 (
          (check_labels_iff (mandatory obj)).1 a.labels,
          (if_present_iff obj.spec.horizontal_scaling).1 a.scaling,
        ),
      ),
    ),
  )

  -- A policy that was admitted on creation or update never makes the mutating webhook skip its
  -- resource defaults.
  apply_policy_resources_of_valid :
      (obj old : WorkloadPolicy) (pod : Pod Q)
      → (validate_workload_policy parse_quantity (create obj) ≡ none)
        ⊎ (validate_workload_policy parse_quantity (update old obj) ≡ none)
      → (b : Bool) × ((apply_policy_resources parse_quantity pod obj).1 ≡ ok b)
  unfolding validate_workload_policy
  apply_policy_resources_of_valid obj old pod (inl h) =
      apply_policy_resources-valid parse_quantity obj
        ((validate_workload_policy_spec-none_iff obj).0 h).quantities pod
  apply_policy_resources_of_valid obj old pod (inr h) =
      apply_policy_resources-valid parse_quantity obj
        ((validate_workload_policy_spec-none_iff obj).0 h).quantities pod

or_default_idem : (d x : ℤ) → or_default d (or_default d x) ≡ or_default d x
or_default_idem d x = ground arith

fill_zeros_idem : (h : HorizontalScalingPolicy) → fill_zeros (fill_zeros h) ≡ fill_zeros h
fill_zeros_idem h = rw (or_default_idem default_hpa_min_replicas h.min_replicas) (
    rw (or_default_idem default_hpa_max_replicas h.max_replicas)
      (rw (or_default_idem default_hpa_target_cpu h.target_cpu_utilization_percentage) refl))

-- Defaulting a defaulted policy changes nothing.
default_workload_policy_idem :
    (obj : WorkloadPolicy)
    → default_workload_policy (default_workload_policy obj) ≡ default_workload_policy obj
unfolding default_workload_policy
default_workload_policy_idem obj = elim (Option-cases obj.spec.horizontal_scaling) [
  | inl missing ↦ ground (arith, missing)
  | inr (h, given) ↦ ground (arith, given, fill_zeros_idem h)
]

-- The values that a user gave: each is zero, or in range.
pub record IsPartial (h : HorizontalScalingPolicy) : Type 0 where
  pub min_given : (h.min_replicas ≡ pos 0) ⊎ (pos 1 ≤ℤ h.min_replicas)
  pub max_given : (h.max_replicas ≡ pos 0) ⊎ (pos 1 ≤ℤ h.max_replicas)
  pub cpu_given :
      (h.target_cpu_utilization_percentage ≡ pos 0)
      ⊎ ((pos 1 ≤ℤ h.target_cpu_utilization_percentage)
          × (h.target_cpu_utilization_percentage ≤ℤ pos 100))

-- Defaulting makes values that were left at zero or are in range pass the validator, exactly when
-- the minimum that results is not above the maximum that results.
check_horizontal_scaling-fill_zeros :
    (h : HorizontalScalingPolicy)
    → IsPartial h
    → (check_horizontal_scaling (fill_zeros h) ≡ none) ↔ (
        or_default default_hpa_min_replicas h.min_replicas
        ≤ℤ or_default default_hpa_max_replicas h.max_replicas)
check_horizontal_scaling-fill_zeros h p = (
  λ e. ((check_horizontal_scaling_iff (fill_zeros h)).0 e).ordered,
  λ le. (check_horizontal_scaling_iff (fill_zeros h)).1 (record {
    min_pos = ground (arith, p.min_given);
    max_pos = ground (arith, p.max_given);
    ordered = le;
    cpu_pos = ground (arith, p.cpu_given);
    cpu_max = ground (arith, p.cpu_given);
  }),
)
