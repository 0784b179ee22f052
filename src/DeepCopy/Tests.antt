-- ===== src/DeepCopy/Tests.antt =====
-- Tests of the deep copies: a list with one policy, whose labels are nil.
use platform_governance_oper.Prelude.{
  String, ◌≡◌, refl, Option, none, some, List, [], ◌∷◌, Entries, lookup, pos, arith, if◌then◌else◌,
  insert,
}
use platform_governance_oper.DeepCopy.Heap.{
  Ptr, ObjectList, workload_policy, Cell, map_cell, scaling_cell, conditions_cell, policies_cell,
  Heap, same, load, alloc,
}
use platform_governance_oper.DeepCopy.Copies.{
  copy_list, deep_copy, copy_entries, copy_slice, copy_items, copy_object, copy_status,
  copy_workload_policy_spec,
}
use platform_governance_oper.DeepCopy.Functions.{deep_copy_workload_policy_list}
use platform_governance_oper.DeepCopy.Kinds.{ObjectValue, ObjectRef}
use platform_governance_oper.DeepCopy.Lists.{ListAt, IsDeepCopy, deep_copy-list}
use platform_governance_oper.Samples.{meta, scaling}

abbrev requests : Entries String
requests = ("cpu", "100m") ∷ ("memory", "128Mi") ∷ []

-- Its maps and slices lie at 0, 1, 2 and 3.
abbrev policy_ref : ObjectRef workload_policy
policy_ref = record {
  meta = meta "standard";
  spec = record {
    default_requests = some 0;
    default_limits = some 0;
    mandatory_labels = none;
    priority = pos 1;
    horizontal_scaling = some 1;
  };
  status = record { conditions = some 2 };
}

abbrev policy : ObjectValue workload_policy
policy = record {
  meta = meta "standard";
  spec = record {
    default_requests = some requests;
    default_limits = some requests;
    mandatory_labels = none;
    priority = pos 1;
    horizontal_scaling = some scaling;
  };
  status = record { conditions = some [] };
}

abbrev cell_at : Ptr → Option Cell
cell_at p =
    if same p 0
    then some (map_cell requests)
    else if same p 1
    then some (scaling_cell scaling)
    else if same p 2
    then some (conditions_cell [])
    else if same p 3
    then some (policies_cell (policy_ref ∷ []))
    else none

abbrev heap : Heap
heap = record { next = 4; cell = cell_at }

abbrev list_ref : ObjectList Ptr
list_ref = record { resource_version = "7"; items = some 3 }

abbrev list : ObjectList (List (ObjectValue workload_policy))
list = record { resource_version = "7"; items = some (policy ∷ []) }

list_at : ListAt workload_policy 0 4 heap list_ref list
unfolding lookup
list_at = record {
  resource_version = refl;
  items = record {
    low = omega arith;
    below = omega arith;
    items = policy_ref ∷ [];
    there = refl;
    at = (
      record {
        meta = refl;
        spec = record {
          requests = (omega arith, omega arith, refl, (refl, (refl, tt)));
          limits = (omega arith, omega arith, refl, (refl, (refl, tt)));
          labels = tt;
          priority = refl;
          scaling = (omega arith, omega arith, refl, tt);
        };
        status = (omega arith, omega arith, refl, tt);
      },
      tt,
    );
  };
}

deep_copy-list_example :
    (out : ObjectList Ptr) × (after : Heap) × (deep_copy_workload_policy_list (some list_ref) heap
      ≡ some (some out, after))
    × IsDeepCopy (ListAt workload_policy) heap after list_ref out list
deep_copy-list_example = deep_copy-list workload_policy heap list_ref list list_at

abbrev copied_at : Option (Option (ObjectList Ptr) × Heap) → Option Ptr
copied_at (some (some out, after)) = out.items
copied_at _ = none

-- The original has shared its map between two fields; the copy has one for each.
copied_last : copied_at (deep_copy_workload_policy_list (some list_ref) heap) ≡ some 8
unfolding deep_copy copy_list copy_slice copy_items copy_object copy_status
    copy_workload_policy_spec copy_entries insert load alloc
copied_last = refl
