-- ===== src/Defaults/Labels.antt =====
-- `applyPolicyLabels`: which labels a pod has afterwards, and when it reports a mutation.
use mathlib.Core.List.{Permᴰ}
use platform_governance_oper.Prelude.{
  String, ◌≡◌, refl, ◌↔◌, inl, inr, sym, Bool, true, false, Option, some, [], ◌∷◌, arith,
  Option-cases, Entries, entries, lookup, insert, lookup-insert, lookup-insert_self, first_of,
  Extends, HasKeys, SameReads-perm, NodupKeys, eq_iff, ◌∙◌, ap,
}
use platform_governance_oper.Api.{WorkloadPolicy}
use platform_governance_oper.Kube.{Pod}
use platform_governance_oper.Defaults.{fill_labels, apply_policy_labels}

-- A label keeps its value; one that is missing gets the first default for it.
fill_labels-lookup :
    (k : String) (ds labels : Entries String) (m : Bool)
    → lookup k (fill_labels ds labels m).0 ≡ first_of (lookup k labels) (lookup k ds)
unfolding fill_labels lookup
fill_labels-lookup k [] labels m = ground arith
fill_labels-lookup k ((l, v) ∷ ds) labels m = elim (Option-cases (lookup l labels)) [
  | inl missing ↦ ground (
    arith,
    missing,
    fill_labels-lookup k ds (insert l v labels) true,
    lookup-insert l k v labels,
    eq_iff l k,
  )
  | inr (w, found) ↦ ground (arith, found, fill_labels-lookup k ds labels m, eq_iff l k)
]

fill_labels-Extends :
    (ds labels : Entries String) (m : Bool) → Extends labels (fill_labels ds labels m).0
fill_labels-Extends ds labels m = record {
  keep = λ k v h. rw (fill_labels-lookup k ds labels m) (rw h refl);
}

fill_labels-HasKeys :
    (ds labels : Entries String) (m : Bool) → HasKeys ds (fill_labels ds labels m).0
unfolding fill_labels
fill_labels-HasKeys [] labels m = tt
fill_labels-HasKeys ((l, v) ∷ ds) labels m = elim (Option-cases (lookup l labels)) [
  | inl missing ↦
      let labels' = insert l v labels in
      rw (missing, fill_labels)
        (
          (v, (fill_labels-Extends ds labels' true).keep l v (lookup-insert_self l v labels)),
          fill_labels-HasKeys ds labels' true,
        )
  | inr (w, found) ↦
      rw (found, fill_labels)
        ((w, (fill_labels-Extends ds labels m).keep l w found), fill_labels-HasKeys ds labels m)
]

-- Where no label is missing, nothing changes.
fill_labels-full :
    (ds labels : Entries String) (m : Bool)
    → HasKeys ds labels
    → fill_labels ds labels m ≡ (labels, m)
unfolding fill_labels
fill_labels-full [] labels m h = refl
fill_labels-full ((l, v) ∷ ds) labels m ((w, found), h) =
    rw (found, fill_labels) (fill_labels-full ds labels m h)

fill_labels-mutated : (ds labels : Entries String) → (fill_labels ds labels true).1 ≡ true
unfolding fill_labels
fill_labels-mutated [] labels = refl
fill_labels-mutated ((l, v) ∷ ds) labels =
    ground (arith, fill_labels-mutated ds labels, fill_labels-mutated ds (insert l v labels))

fill_labels-unmutated :
    (ds labels : Entries String) → (fill_labels ds labels false).1 ≡ false → HasKeys ds labels
unfolding fill_labels
fill_labels-unmutated [] labels h = tt
fill_labels-unmutated ((l, v) ∷ ds) labels h = elim (Option-cases (lookup l labels)) [
  | inl missing ↦
      absurd (cc (fill_labels-mutated ds (insert l v labels), rw (missing, fill_labels) at h))
  | inr (w, found) ↦ ((w, found), fill_labels-unmutated ds labels (rw (found, fill_labels) at h))
]

abbrev pub mandatory : WorkloadPolicy → Entries String
mandatory policy = entries policy.spec.mandatory_labels

module _ {Q : Type 0} where
  abbrev pub label : String → Pod Q → Option String
  label k pod = lookup k (entries pod.labels)

  pub apply_policy_labels-lookup :
      (pod : Pod Q) (policy : WorkloadPolicy) (k : String)
      → label k (apply_policy_labels pod policy).0
        ≡ first_of (label k pod) (lookup k (mandatory policy))
  unfolding apply_policy_labels
  apply_policy_labels-lookup pod policy k =
      fill_labels-lookup k (mandatory policy) (entries pod.labels) false

  pub apply_policy_labels-unmutated_iff :
      (pod : Pod Q) (policy : WorkloadPolicy)
      → ((apply_policy_labels pod policy).1 ≡ false)
        ↔ HasKeys (mandatory policy) (entries pod.labels)
  unfolding apply_policy_labels
  apply_policy_labels-unmutated_iff pod policy = (
    fill_labels-unmutated (mandatory policy) (entries pod.labels),
    λ h.
        ap (λ (r : Entries String × Bool). r.1)
          (fill_labels-full (mandatory policy) (entries pod.labels) false h),
  )

  -- Every label of the pod keeps its value, every label that is missing gets the policy's default
  -- for it if there is one, and nothing else of the pod changes; a mutation is reported exactly
  -- when a mandatory label was missing.
  apply_policy_labels_lem :
      (pod : Pod Q) (policy : WorkloadPolicy)
      → ((k : String)
          → label k (apply_policy_labels pod policy).0
            ≡ first_of (label k pod) (lookup k (mandatory policy)))
        × ((apply_policy_labels pod policy).0
            ≡ record pod { labels = (apply_policy_labels pod policy).0.labels })
        × (((apply_policy_labels pod policy).1 ≡ false)
            ↔ HasKeys (mandatory policy) (entries pod.labels))
  apply_policy_labels_lem pod policy = (
    apply_policy_labels-lookup pod policy,
    unfold apply_policy_labels in refl,
    apply_policy_labels-unmutated_iff pod policy,
  )

  pub apply_policy_labels-HasKeys :
      (pod : Pod Q) (policy : WorkloadPolicy)
      → HasKeys (mandatory policy) (entries (apply_policy_labels pod policy).0.labels)
  unfolding apply_policy_labels
  apply_policy_labels-HasKeys pod policy =
      fill_labels-HasKeys (mandatory policy) (entries pod.labels) false

  pub apply_policy_labels-Extends :
      (pod : Pod Q) (policy : WorkloadPolicy)
      → Extends (entries pod.labels) (entries (apply_policy_labels pod policy).0.labels)
  unfolding apply_policy_labels
  apply_policy_labels-Extends pod policy =
      fill_labels-Extends (mandatory policy) (entries pod.labels) false

  -- A pod that has the mandatory labels gets none; a nil map is made all the same.
  pub apply_policy_labels-full :
      (pod : Pod Q) (policy : WorkloadPolicy)
      → HasKeys (mandatory policy) (entries pod.labels)
      → apply_policy_labels pod policy ≡ (record pod { labels = some (entries pod.labels) }, false)
  unfolding apply_policy_labels
  apply_policy_labels-full pod policy h =
      rw (fill_labels-full (mandatory policy) (entries pod.labels) false h) refl

  -- The order in which `range` visits the mandatory labels shows in no label of the result.
  apply_policy_labels-perm :
      (pod : Pod Q) (p q : WorkloadPolicy) (k : String)
      → NodupKeys (mandatory p)
      → Permᴰ (mandatory p) (mandatory q)
      → label k (apply_policy_labels pod p).0 ≡ label k (apply_policy_labels pod q).0
  apply_policy_labels-perm pod p q k distinct perm =
      apply_policy_labels-lookup pod p k
      ∙ ap (first_of (label k pod)) ((SameReads-perm perm distinct).0.reads k)
      ∙ sym (apply_policy_labels-lookup pod q k)

  pub containers-apply_policy_labels :
      (pod : Pod Q) (policy : WorkloadPolicy)
      → (apply_policy_labels pod policy).0.containers ≡ pod.containers
  unfolding apply_policy_labels
  containers-apply_policy_labels pod policy = refl
