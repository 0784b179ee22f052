-- ===== src/DeepCopy/Copies.antt =====
-- The functions of zz_generated.deepcopy.go. `copy_…` is the DeepCopyInto of a type, into a new
-- struct, and `deep_copy_…` its DeepCopy, which DeepCopyObject passes on.
use platform_governance_oper.Prelude.{String, Option, none, some, List, [], ◌∷◌, Entries, insert}
use platform_governance_oper.Api.{Condition, HorizontalScalingPolicy, TelemetryProfileSpec}
use platform_governance_oper.DeepCopy.Heap.{
  Ptr, PolicySpec, BaselineSpec, Status, Object, ObjectList, Kind, workload_policy,
  security_baseline, telemetry_profile, SpecRef, Cell, map_cell, strings_cell, conditions_cell,
  scaling_cell, policies_cell, baselines_cell, profiles_cell, M, pure, load, ◌>>=◌, alloc,
}

-- `if in.X != nil { … }`: a nil field stays nil.
module _ {A B : Type 0} (copy : A → M B) where
  abbrev pub copy_field : Option A → M (Option B)
  copy_field none = pure none
  copy_field (some a) = do b ← copy a; pure (some b)

-- The read of a cell, and a new one with what is made of it.
module _ {A : Type 0} (type : Cell → Option A) (cell : A → Cell) (f : A → A) where
  abbrev pub copy_cell : Ptr → M Ptr
  copy_cell p = do a ← load type p; alloc (cell (f a))

abbrev pub as_map : Cell → Option (Entries String)
as_map (map_cell m) = some m
as_map _ = none

abbrev pub as_strings : Cell → Option (List String)
as_strings (strings_cell xs) = some xs
as_strings _ = none

abbrev pub as_conditions : Cell → Option (List Condition)
as_conditions (conditions_cell cs) = some cs
as_conditions _ = none

abbrev pub as_scaling : Cell → Option HorizontalScalingPolicy
as_scaling (scaling_cell s) = some s
as_scaling _ = none

-- `for key, val := range *in { (*out)[key] = val }`
unfoldable pub copy_entries : Entries String → Entries String → Entries String
copy_entries [] out = out
copy_entries ((key, val) ∷ rest) out = copy_entries rest (insert key val out)

abbrev pub copy_map : Ptr → M Ptr
copy_map = copy_cell as_map map_cell (λ m. copy_entries m [])

-- `make([]string, len(*in))` and `copy(*out, *in)`
abbrev pub copy_strings : Ptr → M Ptr
copy_strings = copy_cell as_strings strings_cell (λ xs. xs)

-- The loop over conditions.
abbrev pub copy_conditions : Ptr → M Ptr
copy_conditions = copy_cell as_conditions conditions_cell (λ cs. cs)

-- `**out = **in`
abbrev pub copy_scaling : Ptr → M Ptr
copy_scaling = copy_cell as_scaling scaling_cell (λ s. s)

unfoldable pub copy_horizontal_scaling_policy : HorizontalScalingPolicy → M HorizontalScalingPolicy
copy_horizontal_scaling_policy in_ = pure in_

unfoldable pub copy_workload_policy_spec : PolicySpec Ptr Ptr → M (PolicySpec Ptr Ptr)
copy_workload_policy_spec in_ = do
  requests ← copy_field copy_map in_.default_requests
  limits ← copy_field copy_map in_.default_limits
  labels ← copy_field copy_map in_.mandatory_labels
  scaling ← copy_field copy_scaling in_.horizontal_scaling
  pure (record in_ {
    default_requests = requests;
    default_limits = limits;
    mandatory_labels = labels;
    horizontal_scaling = scaling;
  })

unfoldable pub copy_security_baseline_spec : BaselineSpec Ptr → M (BaselineSpec Ptr)
copy_security_baseline_spec in_ = do
  namespaces ← copy_field copy_strings in_.excluded_namespaces
  pure (record in_ { excluded_namespaces = namespaces })

-- All fields are values.
unfoldable pub copy_telemetry_profile_spec : TelemetryProfileSpec → M TelemetryProfileSpec
copy_telemetry_profile_spec in_ = pure in_

-- The DeepCopyInto of the three status types, which are the same.
unfoldable pub copy_status : Status Ptr → M (Status Ptr)
copy_status in_ = do
  conditions ← copy_field copy_conditions in_.conditions
  pure (record in_ { conditions = conditions })

abbrev pub copy_spec : (k : Kind) → SpecRef k → M (SpecRef k)
copy_spec workload_policy = copy_workload_policy_spec
copy_spec security_baseline = copy_security_baseline_spec
copy_spec telemetry_profile = copy_telemetry_profile_spec

module _ {Spec : Type 0} (copy : Spec → M Spec) where
  -- The DeepCopyInto of an object, which calls those of its spec and its status.
  unfoldable pub copy_object : Object Spec Ptr → M (Object Spec Ptr)
  copy_object in_ = do
    spec ← copy in_.spec
    status ← copy_status in_.status
    pure (record in_ { spec = spec; status = status })

  -- The loop over the items of a list.
  unfoldable pub copy_items : List (Object Spec Ptr) → M (List (Object Spec Ptr))
  copy_items [] = pure []
  copy_items (in_ ∷ rest) = do out ← copy_object in_; outs ← copy_items rest; pure (out ∷ outs)

abbrev pub as_items : (k : Kind) → Cell → Option (List (Object (SpecRef k) Ptr))
as_items workload_policy (policies_cell items) = some items
as_items workload_policy _ = none
as_items security_baseline (baselines_cell items) = some items
as_items security_baseline _ = none
as_items telemetry_profile (profiles_cell items) = some items
as_items telemetry_profile _ = none

abbrev pub items_cell : (k : Kind) → List (Object (SpecRef k) Ptr) → Cell
items_cell workload_policy = policies_cell
items_cell security_baseline = baselines_cell
items_cell telemetry_profile = profiles_cell

-- `make` of the slice, and the loop.
unfoldable pub copy_slice : (k : Kind) → Ptr → M Ptr
copy_slice k p = do
  items ← load (as_items k) p
  outs ← copy_items (copy_spec k) items
  alloc (items_cell k outs)

-- The DeepCopyInto of a list of objects.
unfoldable pub copy_list : (k : Kind) → ObjectList Ptr → M (ObjectList Ptr)
copy_list k in_ = do
  items ← copy_field (copy_slice k) in_.items
  pure (record in_ { items = items })

-- `if in == nil { return nil }`, else a new struct. DeepCopyObject gives this copy, or nil.
unfoldable pub deep_copy : {A : Type 0} → (A → M A) → Option A → M (Option A)
deep_copy copy none = pure none
deep_copy copy (some in_) = do out ← copy in_; pure (some out)
