-- ===== src/DeepCopy/Lists.antt =====
-- The lists of objects, and what a deep copy is good for.
use platform_governance_oper.Prelude.{ℕ, ◌≤◌, ◌<◌, ◌≡◌, refl, ◌∙◌, some, List, arith}
use platform_governance_oper.DeepCopy.Heap.{
  Ptr, ObjectList, Kind, workload_policy, security_baseline, telemetry_profile, M, load, alloc,
  Heap,
}
use platform_governance_oper.DeepCopy.Copies.{
  copy_field, copy_spec, copy_object, copy_items, as_items, items_cell, copy_slice, copy_list,
  deep_copy,
}
use platform_governance_oper.DeepCopy.Copier.{
  Layout, Keeps, IsCopier, bind_returns, load_returns, Grew-refl, Grew-trans, Copied-later, FieldAt,
  field-IsCopier, grown, grown-new, Grew-grown,
}
use platform_governance_oper.DeepCopy.Kinds.{
  ObjectRef, ObjectValue, ObjectAt, object-IsCopier, ItemsAt, items-IsCopier,
}

as_items-cell :
    (k : Kind) (items : List (ObjectRef k)) → as_items k (items_cell k items) ≡ some items
as_items-cell workload_policy items = refl
as_items-cell security_baseline items = refl
as_items-cell telemetry_profile items = refl

module _ (k : Kind) where
  -- A slice of objects.
  pub record SliceAt (lo hi : ℕ) (h : Heap) (p : Ptr) (vs : List (ObjectValue k)) : Type 0 where
    pub low : lo ≤ p
    pub below : p < hi
    pub items : List (ObjectRef k)
    pub there : h.cell p ≡ some (items_cell k items)
    pub at : ItemsAt k lo hi h items vs

  slice-IsCopier : IsCopier SliceAt (copy_slice k)
  unfolding copy_slice alloc
  slice-IsCopier = record {
    moves = λ lo hi lo' hi' h h' p vs le ge kept s. record {
      low = omega (arith, s.low, le);
      below = omega (arith, s.below, ge);
      items = s.items;
      there = kept.same_cell p s.low s.below ∙ s.there;
      at = (items-IsCopier k).moves lo hi lo' hi' h h' s.items vs le ge kept s.at;
    };
    copies = λ h p vs s.
        let d = (items-IsCopier k).copies h s.items vs s.at in
        let slice = items_cell k d.out in
        record {
          out = d.after.next;
          after = grown d.after slice;
          returns =
              bind_returns (load (as_items k) p) _ (
                load_returns (as_items k) h p (items_cell k s.items) s.items s.there
                  (as_items-cell k s.items))
              ∙ bind_returns (copy_items (copy_spec k) s.items) _ d.returns;
          grew = Grew-trans d.grew (Grew-grown d.after slice);
          copied = record {
            low = d.grew.grows;
            below = omega arith;
            items = d.out;
            there = grown-new d.after slice;
            at = Copied-later (items-IsCopier k) (Grew-refl h) d (Grew-grown d.after slice);
          };
        };
  }

  slices : IsCopier (FieldAt SliceAt) (copy_field (copy_slice k))
  slices = field-IsCopier SliceAt slice-IsCopier

  pub record ListAt (lo hi : ℕ) (h : Heap) (r : ObjectList Ptr)
      (v : ObjectList (List (ObjectValue k))) : Type 0 where
    pub resource_version : r.resource_version ≡ v.resource_version
    pub items : FieldAt SliceAt lo hi h r.items v.items

  pub list-IsCopier : IsCopier ListAt (copy_list k)
  unfolding copy_list
  list-IsCopier = record {
    moves = λ lo hi lo' hi' h h' r v le ge kept l. record {
      resource_version = l.resource_version;
      items = slices.moves lo hi lo' hi' h h' r.items v.items le ge kept l.items;
    };
    copies = λ h r v l.
        let d = slices.copies h r.items v.items l.items in
        record {
          out = record r { items = d.out };
          after = d.after;
          returns = bind_returns (copy_field (copy_slice k) r.items) _ d.returns;
          grew = d.grew;
          copied = record { resource_version = l.resource_version; items = d.copied };
        };
  }

module _ {R V : Type 0} (At : Layout R V) where
  -- `out` is a deep copy of r, made from the first heap to the second: whatever happens to the new
  -- cells, r still stands for v, and whatever happens to the old ones, so does `out`.
  pub record IsDeepCopy (h after : Heap) (r out : R) (v : V) : Type 0 where
    pub original : (later : Heap) → Keeps 0 h.next after later → At 0 h.next later r v
    pub copy :
        (later : Heap) → Keeps h.next after.next after later → At h.next after.next later out v

  deep_copied :
      (copy_into : R → M R)
      → IsCopier At copy_into
      → (h : Heap) (r : R) (v : V) → At 0 h.next h r v
      → (out : R) × (after : Heap) × (deep_copy copy_into (some r) h ≡ some (some out, after))
        × IsDeepCopy h after r out v
  unfolding deep_copy
  deep_copied copy_into c h r v at =
      let d = c.copies h r v at in
      (
        d.out,
        d.after,
        bind_returns (copy_into r) _ d.returns,
        record {
          original = λ later kept.
              c.moves 0 h.next 0 h.next h later r v (omega arith) (omega arith)
                (record {
                  same_cell = λ p lo hi. kept.same_cell p lo hi ∙ d.grew.keeps.same_cell p lo hi;
                })
                at;
          copy = λ later kept.
              c.moves h.next d.after.next h.next d.after.next d.after later d.out v (omega arith)
                (omega arith) kept d.copied;
        },
      )

-- The DeepCopy of an object returns a deep copy of it, whose maps, slices and pointers are its own.
pub deep_copy-object :
    (k : Kind) (h : Heap) (r : ObjectRef k) (v : ObjectValue k)
    → ObjectAt k 0 h.next h r v
    → (out : ObjectRef k) × (after : Heap) × (deep_copy (copy_object (copy_spec k)) (some r) h
        ≡ some (some out, after))
      × IsDeepCopy (ObjectAt k) h after r out v
deep_copy-object k = deep_copied (ObjectAt k) (copy_object (copy_spec k)) (object-IsCopier k)

-- The DeepCopy of a list of objects returns, for each of the three kinds, a deep copy of the list:
-- it stands for the same value, nil fields included, and still does whatever is written to the cells
-- of the original, as the original does whatever is written to the cells of the copy. The maps in
-- the list hold no key twice.
pub deep_copy-list :
    (k : Kind) (h : Heap) (r : ObjectList Ptr) (v : ObjectList (List (ObjectValue k)))
    → ListAt k 0 h.next h r v
    → (out : ObjectList Ptr) × (after : Heap) × (deep_copy (copy_list k) (some r) h
        ≡ some (some out, after))
      × IsDeepCopy (ListAt k) h after r out v
deep_copy-list k = deep_copied (ListAt k) (copy_list k) (list-IsCopier k)
