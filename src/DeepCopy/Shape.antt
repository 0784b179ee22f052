-- ===== src/DeepCopy/Shape.antt =====
-- Of which parts each struct is made, and that its copying function copies it.
use platform_governance_oper.Prelude.{ℕ, String, ◌≡◌, refl, ◌∙◌, List, Entries, NodupKeys}
use platform_governance_oper.Api.{Condition, HorizontalScalingPolicy, TelemetryProfileSpec}
use platform_governance_oper.DeepCopy.Heap.{
  Ptr, PolicySpec, BaselineSpec, Status, map_cell, strings_cell, conditions_cell, scaling_cell,
  Heap,
}
use platform_governance_oper.DeepCopy.Copies.{
  copy_field, copy_map, copy_strings, copy_conditions, copy_scaling, as_strings, as_conditions,
  as_scaling, copy_workload_policy_spec, copy_security_baseline_spec, copy_status,
}
use platform_governance_oper.DeepCopy.Copier.{
  Layout, Copied, IsCopier, bind_returns, Grew-refl, Grew-trans, At-later, Copied-later, FieldAt,
  field-IsCopier, CellAt, cell-IsCopier,
}

abbrev pub MapAt : Layout Ptr (Entries String)
MapAt = CellAt map_cell NodupKeys

abbrev pub StringsAt : Layout Ptr (List String)
StringsAt = CellAt strings_cell (λ _. Unit)

abbrev pub ConditionsAt : Layout Ptr (List Condition)
ConditionsAt = CellAt conditions_cell (λ _. Unit)

abbrev pub ScalingAt : Layout Ptr HorizontalScalingPolicy
ScalingAt = CellAt scaling_cell (λ _. Unit)

strings-IsCopier : IsCopier StringsAt copy_strings
strings-IsCopier =
    cell-IsCopier strings_cell (λ _. Unit) as_strings (λ xs. xs) (λ _. refl) (λ _ _. refl)

conditions-IsCopier : IsCopier ConditionsAt copy_conditions
conditions-IsCopier =
    cell-IsCopier conditions_cell (λ _. Unit) as_conditions (λ cs. cs) (λ _. refl) (λ _ _. refl)

scaling-IsCopier : IsCopier ScalingAt copy_scaling
scaling-IsCopier =
    cell-IsCopier scaling_cell (λ _. Unit) as_scaling (λ s. s) (λ _. refl) (λ _ _. refl)

-- The struct of a WorkloadPolicy's spec, with the values of its fields.
pub record PolicySpecAt (lo hi : ℕ) (h : Heap) (r : PolicySpec Ptr Ptr)
    (v : PolicySpec (Entries String) HorizontalScalingPolicy) : Type 0 where
  pub requests : FieldAt MapAt lo hi h r.default_requests v.default_requests
  pub limits : FieldAt MapAt lo hi h r.default_limits v.default_limits
  pub labels : FieldAt MapAt lo hi h r.mandatory_labels v.mandatory_labels
  pub priority : r.priority ≡ v.priority
  pub scaling : FieldAt ScalingAt lo hi h r.horizontal_scaling v.horizontal_scaling

pub record BaselineSpecAt (lo hi : ℕ) (h : Heap) (r : BaselineSpec Ptr)
    (v : BaselineSpec (List String)) : Type 0 where
  pub run_as_non_root : r.run_as_non_root ≡ v.run_as_non_root
  pub read_only : r.read_only_root_filesystem ≡ v.read_only_root_filesystem
  pub namespaces : FieldAt StringsAt lo hi h r.excluded_namespaces v.excluded_namespaces

abbrev pub ProfileSpecAt : Layout TelemetryProfileSpec TelemetryProfileSpec
ProfileSpecAt lo hi h r v = r ≡ v

abbrev pub StatusAt : Layout (Status Ptr) (Status (List Condition))
StatusAt lo hi h r v = FieldAt ConditionsAt lo hi h r.conditions v.conditions

module _ (map_copier : IsCopier MapAt copy_map) where
  fields : IsCopier (FieldAt MapAt) (copy_field copy_map)
  fields = field-IsCopier MapAt map_copier

  targets : IsCopier (FieldAt ScalingAt) (copy_field copy_scaling)
  targets = field-IsCopier ScalingAt scaling-IsCopier

  policy_spec_copies :
      (h : Heap) (r : PolicySpec Ptr Ptr) (v : PolicySpec (Entries String) HorizontalScalingPolicy)
      → PolicySpecAt 0 h.next h r v
      → Copied PolicySpecAt copy_workload_policy_spec h r v
  unfolding copy_workload_policy_spec
  policy_spec_copies h r v at =
      let d1 = fields.copies h r.default_requests v.default_requests at.requests in
      let g1 = d1.grew in
      let d2 =
        fields.copies d1.after r.default_limits v.default_limits (At-later fields g1 at.limits) in
      let g2 = Grew-trans g1 d2.grew in
      let d3 =
        fields.copies d2.after r.mandatory_labels v.mandatory_labels
          (At-later fields g2 at.labels) in
      let g3 = Grew-trans g2 d3.grew in
      let d4 =
        targets.copies d3.after r.horizontal_scaling v.horizontal_scaling
          (At-later targets g3 at.scaling) in
      record {
        out = record r {
          default_requests = d1.out;
          default_limits = d2.out;
          mandatory_labels = d3.out;
          horizontal_scaling = d4.out;
        };
        after = d4.after;
        returns =
            bind_returns (copy_field copy_map r.default_requests) _ d1.returns
            ∙ bind_returns (copy_field copy_map r.default_limits) _ d2.returns
            ∙ bind_returns (copy_field copy_map r.mandatory_labels) _ d3.returns
            ∙ bind_returns (copy_field copy_scaling r.horizontal_scaling) _ d4.returns;
        grew = Grew-trans g3 d4.grew;
        copied = record {
          requests =
              Copied-later fields (Grew-refl h) d1
                (Grew-trans d2.grew (Grew-trans d3.grew d4.grew));
          limits = Copied-later fields g1 d2 (Grew-trans d3.grew d4.grew);
          labels = Copied-later fields g2 d3 d4.grew;
          priority = at.priority;
          scaling = Copied-later targets g3 d4 (Grew-refl d4.after);
        };
      }

  pub policy_spec-IsCopier : IsCopier PolicySpecAt copy_workload_policy_spec
  policy_spec-IsCopier = record {
    moves = λ lo hi lo' hi' h h' r v le ge k at. record {
      requests =
          fields.moves lo hi lo' hi' h h' r.default_requests v.default_requests le ge k at.requests;
      limits = fields.moves lo hi lo' hi' h h' r.default_limits v.default_limits le ge k at.limits;
      labels =
          fields.moves lo hi lo' hi' h h' r.mandatory_labels v.mandatory_labels le ge k at.labels;
      priority = at.priority;
      scaling =
          targets.moves lo hi lo' hi' h h' r.horizontal_scaling v.horizontal_scaling le ge k
            at.scaling;
    };
    copies = policy_spec_copies;
  }

namespaces-IsCopier : IsCopier (FieldAt StringsAt) (copy_field copy_strings)
namespaces-IsCopier = field-IsCopier StringsAt strings-IsCopier

pub baseline_spec-IsCopier : IsCopier BaselineSpecAt copy_security_baseline_spec
unfolding copy_security_baseline_spec
baseline_spec-IsCopier = record {
  moves = λ lo hi lo' hi' h h' r v le ge k at. record {
    run_as_non_root = at.run_as_non_root;
    read_only = at.read_only;
    namespaces =
        namespaces-IsCopier.moves lo hi lo' hi' h h' r.excluded_namespaces v.excluded_namespaces le
          ge k at.namespaces;
  };
  copies = λ h r v at.
      let d =
        namespaces-IsCopier.copies h r.excluded_namespaces v.excluded_namespaces at.namespaces in
      record {
        out = record r { excluded_namespaces = d.out };
        after = d.after;
        returns = bind_returns (copy_field copy_strings r.excluded_namespaces) _ d.returns;
        grew = d.grew;
        copied = record {
          run_as_non_root = at.run_as_non_root;
          read_only = at.read_only;
          namespaces = d.copied;
        };
      };
}

cs-IsCopier : IsCopier (FieldAt ConditionsAt) (copy_field copy_conditions)
cs-IsCopier = field-IsCopier ConditionsAt conditions-IsCopier

pub status-IsCopier : IsCopier StatusAt copy_status
unfolding copy_status
status-IsCopier = record {
  moves = λ lo hi lo' hi' h h' r v le ge k at.
      cs-IsCopier.moves lo hi lo' hi' h h' r.conditions v.conditions le ge k at;
  copies = λ h r v at.
      let d = cs-IsCopier.copies h r.conditions v.conditions at in
      record {
        out = record { conditions = d.out };
        after = d.after;
        returns = bind_returns (copy_field copy_conditions r.conditions) _ d.returns;
        grew = d.grew;
        copied = d.copied;
      };
}
