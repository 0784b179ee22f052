-- ===== src/DeepCopy/Heap.antt =====
-- The heap, the structs of the custom resources as they lie in it, and reads and allocations. Each
-- struct takes what its maps, slices and pointers are: an address, or the contents themselves.
use platform_governance_oper.Prelude.{
  ℕ, suc, String, Bool, true, false, Option, none, some, List, if◌then◌else◌, Entries, ℤ, ltb,
}
use platform_governance_oper.Api.{
  ObjectMeta, Condition, HorizontalScalingPolicy, TelemetryProfileSpec,
}

abbrev pub Ptr : Type 0
Ptr = ℕ

pub record PolicySpec (Map Scaling : Type 0) : Type 0 where
  pub default_requests : Option Map
  pub default_limits : Option Map
  pub mandatory_labels : Option Map
  pub priority : ℤ
  pub horizontal_scaling : Option Scaling

pub record BaselineSpec (Strings : Type 0) : Type 0 where
  pub run_as_non_root : Bool
  pub read_only_root_filesystem : Bool
  pub excluded_namespaces : Option Strings

-- The three status types, which have the same field.
pub record Status (Conditions : Type 0) : Type 0 where
  pub conditions : Option Conditions

-- The three kinds of objects, which differ in their spec.
pub record Object (Spec Conditions : Type 0) : Type 0 where
  pub meta : ObjectMeta
  pub spec : Spec
  pub status : Status Conditions

-- The three kinds of lists.
pub record ObjectList (Items : Type 0) : Type 0 where
  pub resource_version : String
  pub items : Option Items

pub data Kind : Type 0 where
  workload_policy : Kind
  security_baseline : Kind
  telemetry_profile : Kind

-- The spec of each kind, with addresses.
abbrev pub SpecRef : Kind → Type 0
SpecRef workload_policy = PolicySpec Ptr Ptr
SpecRef security_baseline = BaselineSpec Ptr
SpecRef telemetry_profile = TelemetryProfileSpec

-- What lies at an address: a map, a slice, or the target of a pointer.
pub data Cell : Type 0 where
  map_cell : Entries String → Cell
  strings_cell : List String → Cell
  conditions_cell : List Condition → Cell
  scaling_cell : HorizontalScalingPolicy → Cell
  policies_cell : List (Object (PolicySpec Ptr Ptr) Ptr) → Cell
  baselines_cell : List (Object (BaselineSpec Ptr) Ptr) → Cell
  profiles_cell : List (Object TelemetryProfileSpec Ptr) → Cell

pub record Heap : Type 0 where
  pub next : Ptr
  pub cell : Ptr → Option Cell

-- A computation on the heap; `none` is a fault: no cell, or one of another type, where one is read.
abbrev pub M : Type 0 → Type 0
M A = Heap → Option (A × Heap)

module _ {A : Type 0} where
  abbrev pub pure : A → M A
  pure a = λ h. some (a, h)

  -- What is read at an address, by a function that knows the type.
  unfoldable pub load : (Cell → Option A) → Ptr → M A
  load type p h = elim (h.cell p) [
    | none ↦ none
    | some c ↦ elim (type c) [ none ↦ none | some a ↦ some (a, h) ]
  ]

module _ {A B : Type 0} where
  infixl 5 ◌>>=◌
  abbrev pub ◌>>=◌ : M A → (A → M B) → M B
  m >>= rest = λ h. elim (m h) [ none ↦ none | some (a, after) ↦ rest a after ]

abbrev pub same : Ptr → Ptr → Bool
same p q = if ltb p q then false else if ltb q p then false else true

-- `new` and `make`, with what is written to the cell at once.
unfoldable pub alloc : Cell → M Ptr
alloc c h =
    some
      (h.next, record { next = suc h.next; cell = λ p. if same p h.next then some c else h.cell p })
