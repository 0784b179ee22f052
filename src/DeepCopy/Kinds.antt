-- ===== src/DeepCopy/Kinds.antt =====
-- The objects of each kind and their lists.
use platform_governance_oper.Prelude.{ℕ, ◌≤◌, String, ◌≡◌, refl, ◌∙◌, List, [], ◌∷◌, arith, Entries}
use platform_governance_oper.Api.{Condition, HorizontalScalingPolicy, TelemetryProfileSpec}
use platform_governance_oper.DeepCopy.Heap.{
  Ptr, PolicySpec, BaselineSpec, Object, Kind, workload_policy, security_baseline,
  telemetry_profile, SpecRef, Heap,
}
use platform_governance_oper.DeepCopy.Copies.{
  copy_spec, copy_status, copy_object, copy_items, copy_telemetry_profile_spec,
}
use platform_governance_oper.DeepCopy.Copier.{
  Layout, Keeps, Copied, IsCopier, bind_returns, Grew-refl, Grew-trans, At-later, Copied-later,
  pure-IsCopier,
}
use platform_governance_oper.DeepCopy.Shape.{
  PolicySpecAt, BaselineSpecAt, ProfileSpecAt, StatusAt, policy_spec-IsCopier,
  baseline_spec-IsCopier, status-IsCopier,
}
use platform_governance_oper.DeepCopy.Maps.{map-IsCopier}

-- The spec of each kind, with the contents in the place of addresses.
abbrev pub SpecValue : Kind → Type 0
SpecValue workload_policy = PolicySpec (Entries String) HorizontalScalingPolicy
SpecValue security_baseline = BaselineSpec (List String)
SpecValue telemetry_profile = TelemetryProfileSpec

abbrev pub SpecAt : (k : Kind) → Layout (SpecRef k) (SpecValue k)
SpecAt workload_policy = PolicySpecAt
SpecAt security_baseline = BaselineSpecAt
SpecAt telemetry_profile = ProfileSpecAt

profile_spec-IsCopier : IsCopier ProfileSpecAt copy_telemetry_profile_spec
unfolding copy_telemetry_profile_spec
profile_spec-IsCopier = pure-IsCopier

spec-IsCopier : (k : Kind) → IsCopier (SpecAt k) (copy_spec k)
spec-IsCopier workload_policy = policy_spec-IsCopier map-IsCopier
spec-IsCopier security_baseline = baseline_spec-IsCopier
spec-IsCopier telemetry_profile = profile_spec-IsCopier

abbrev pub ObjectRef : Kind → Type 0
ObjectRef k = Object (SpecRef k) Ptr

abbrev pub ObjectValue : Kind → Type 0
ObjectValue k = Object (SpecValue k) (List Condition)

module _ (k : Kind) where
  specs : IsCopier (SpecAt k) (copy_spec k)
  specs = spec-IsCopier k

  pub record ObjectAt (lo hi : ℕ) (h : Heap) (r : ObjectRef k) (v : ObjectValue k) : Type 0 where
    pub meta : r.meta ≡ v.meta
    pub spec : SpecAt k lo hi h r.spec v.spec
    pub status : StatusAt lo hi h r.status v.status

  pub object-IsCopier : IsCopier ObjectAt (copy_object (copy_spec k))
  unfolding copy_object
  object-IsCopier = record {
    moves = λ lo hi lo' hi' h h' r v le ge kept at. record {
      meta = at.meta;
      spec = specs.moves lo hi lo' hi' h h' r.spec v.spec le ge kept at.spec;
      status = status-IsCopier.moves lo hi lo' hi' h h' r.status v.status le ge kept at.status;
    };
    copies = λ h r v at.
        let d = specs.copies h r.spec v.spec at.spec in
        let e =
          status-IsCopier.copies d.after r.status v.status
            (At-later status-IsCopier {r = r.status} {v = v.status} d.grew at.status) in
        record {
          out = record r { spec = d.out; status = e.out };
          after = e.after;
          returns =
              bind_returns (copy_spec k r.spec) _ d.returns
              ∙ bind_returns (copy_status r.status) _ e.returns;
          grew = Grew-trans d.grew e.grew;
          copied = record {
            meta = at.meta;
            spec = Copied-later specs (Grew-refl h) d e.grew;
            status = Copied-later status-IsCopier d.grew e (Grew-refl e.after);
          };
        };
  }

  abbrev pub ItemsAt : Layout (List (ObjectRef k)) (List (ObjectValue k))
  ItemsAt lo hi h [] [] = Unit
  ItemsAt lo hi h (r ∷ rs) (v ∷ vs) = ObjectAt lo hi h r v × ItemsAt lo hi h rs vs
  ItemsAt lo hi h [] (_ ∷ _) = ⊥
  ItemsAt lo hi h (_ ∷ _) [] = ⊥

  items_moves :
      (lo hi lo' hi' : ℕ) (h h' : Heap) (rs : List (ObjectRef k)) (vs : List (ObjectValue k))
      → lo' ≤ lo
      → hi ≤ hi'
      → Keeps lo hi h h'
      → ItemsAt lo hi h rs vs
      → ItemsAt lo' hi' h' rs vs
  items_moves lo hi lo' hi' h h' [] [] le ge kept at = tt
  items_moves lo hi lo' hi' h h' (r ∷ rs) (v ∷ vs) le ge kept (here, at) = (
    object-IsCopier.moves lo hi lo' hi' h h' r v le ge kept here,
    items_moves lo hi lo' hi' h h' rs vs le ge kept at,
  )
  items_moves lo hi lo' hi' h h' [] (_ ∷ _) le ge kept at = absurd at
  items_moves lo hi lo' hi' h h' (_ ∷ _) [] le ge kept at = absurd at

  items_copies :
      (h : Heap) (rs : List (ObjectRef k)) (vs : List (ObjectValue k))
      → ItemsAt 0 h.next h rs vs
      → Copied ItemsAt (copy_items (copy_spec k)) h rs vs
  unfolding copy_items
  items_copies h [] [] at = record {
    out = [];
    after = h;
    returns = refl;
    grew = Grew-refl h;
    copied = tt;
  }
  items_copies h (r ∷ rs) (v ∷ vs) (here, at) =
      let d = object-IsCopier.copies h r v here in
      let e = items_copies d.after rs vs (
        items_moves 0 h.next 0 d.after.next h d.after rs vs (omega arith) d.grew.grows d.grew.keeps
          at) in
      record {
        out = d.out ∷ e.out;
        after = e.after;
        returns =
            bind_returns (copy_object (copy_spec k) r) _ d.returns
            ∙ bind_returns (copy_items (copy_spec k) rs) _ e.returns;
        grew = Grew-trans d.grew e.grew;
        copied = (
          Copied-later object-IsCopier (Grew-refl h) d e.grew,
          items_moves d.after.next e.after.next h.next e.after.next e.after e.after e.out vs
              d.grew.grows (omega arith) (record { same_cell = λ p _ _. refl }) e.copied,
        );
      }
  items_copies h [] (_ ∷ _) at = absurd at
  items_copies h (_ ∷ _) [] at = absurd at

  pub items-IsCopier : IsCopier ItemsAt (copy_items (copy_spec k))
  items-IsCopier = record { moves = items_moves; copies = items_copies }
