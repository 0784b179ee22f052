-- ===== src/Reconcile/Conflict.antt =====
-- `reconcileDeploymentHPAs` on reads from a cache that is behind the API server, for Deployments that
-- opt in: the API server refuses to create what exists, and to update what has changed since.
use platform_governance_oper.Prelude.{
  String, ◌==◌, ◌≡◌, ◌≢◌, refl, sym, ap, ◌∙◌, ◌⊎◌, inl, inr, true, false, Option, some, List, ok,
  All, Bool-cases, eq_iff,
}
use platform_governance_oper.Api.{WorkloadPolicy}
use platform_governance_oper.Kube.{Error}
use platform_governance_oper.Hpa.{
  Deployment, Hpa, desired_hpa_for_deployment, ensure_managed_hpa_metadata, is_managed_hpa,
}
use platform_governance_oper.Reconcile.{
  NamespacedName, Client, retargeted, reconcile_deployment, reconcile_deployment_hpas,
}
use platform_governance_oper.Reconcile.Steps.{key_of, hpa_key, Step, reconcile_deployment-Step}
use platform_governance_oper.Reconcile.Keeps.{hpas_ind}
use platform_governance_oper.Reconcile.Governed.{retargeted_key, Wants}

String-cases : (a b : String) → (a ≡ b) ⊎ (a ≢ b)
String-cases a b = elim (Bool-cases (a == b)) [
  | inl on ↦ inl ((eq_iff a b).0 on)
  | inr off ↦ inr (λ e. cc ((eq_iff a b).1 e, off))
]

key_cases : (j k : NamespacedName) → (j ≡ k) ⊎ (j ≢ k)
key_cases j k = elim (String-cases j.0 k.0) [
  | inr other ↦ inr (λ e. other (ap (λ (k : NamespacedName). k.0) e))
  | inl namespace ↦ elim (String-cases j.1 k.1) [
    | inr other ↦ inr (λ e. other (ap (λ (k : NamespacedName). k.1) e))
    | inl name ↦ inl (λ i. (namespace i, name i))
  ]
]

module _ {W : Type 0} (client : Client W) (stored : W → NamespacedName → Option Hpa) where
  -- What is read of an autoscaler may be old, but it has a resource version, which stands for one
  -- content. A write is to the key of its object only; a create where an autoscaler is stored, and
  -- an update with another resource version than the stored one's, leave it as it is. An update with
  -- no resource version may overwrite anything.
  pub record IsVersioned : Type 0 where
    pub keyed : (w : W) (k : NamespacedName) (h : Hpa) → client.get_hpa k w ≡ ok h → key_of h ≡ k
    pub numbered :
        (w : W) (k : NamespacedName) (h : Hpa) → client.get_hpa k w ≡ ok h → h.resource_version ≢ ""
    pub one_content :
        (w : W) (k : NamespacedName) (read now : Hpa)
        → client.get_hpa k w ≡ ok read
        → stored w k ≡ some now
        → read.resource_version ≡ now.resource_version
        → read ≡ now
    pub create_frame :
        (w : W) (h : Hpa) (k : NamespacedName)
        → k ≢ key_of h
        → stored (client.create_hpa h w).1 k ≡ stored w k
    pub create_exists :
        (w : W) (h now : Hpa)
        → stored w (key_of h) ≡ some now
        → stored (client.create_hpa h w).1 (key_of h) ≡ some now
    pub update_frame :
        (w : W) (h : Hpa) (k : NamespacedName)
        → k ≢ key_of h
        → stored (client.update_hpa h w).1 k ≡ stored w k
    pub update_conflict :
        (w : W) (h now : Hpa)
        → stored w (key_of h) ≡ some now
        → h.resource_version ≢ ""
        → h.resource_version ≢ now.resource_version
        → stored (client.update_hpa h w).1 (key_of h) ≡ some now
    pub delete_frame :
        (w : W) (h : Hpa) (k : NamespacedName)
        → k ≢ key_of h
        → stored (client.delete_hpa h w).1 k ≡ stored w k

  retargeted_version :
      (policy : WorkloadPolicy) (d : Deployment) (h : Hpa)
      → (retargeted client policy d h).resource_version ≡ h.resource_version
  unfolding ensure_managed_hpa_metadata
  retargeted_version policy d h = refl

  -- The autoscaler of the Deployment has another key, or the Deployment opts in.
  abbrev pub OptsInAt : WorkloadPolicy → NamespacedName → Deployment → Type 0
  OptsInAt policy k d = (k ≢ hpa_key d) ⊎ Wants client stored policy d true

  module _ (versioned : IsVersioned) (policy : WorkloadPolicy) (k : NamespacedName) (x : Hpa)
      (foreign : is_managed_hpa (some x) ≡ false) where
    update_keeps :
        (d : Deployment) (w : W) (h : Hpa)
        → client.get_hpa (hpa_key d) w ≡ ok h
        → is_managed_hpa (some h) ≡ true
        → stored w k ≡ some x
        → stored (client.update_hpa (retargeted client policy d h) w).1 k ≡ some x
    update_keeps d w h read managed here =
        let written = retargeted client policy d h in
        let key : key_of written ≡ hpa_key d =
          retargeted_key client policy d h ∙ versioned.keyed w (hpa_key d) h read in
        elim (key_cases k (key_of written)) [
          | inr other ↦ versioned.update_frame w written k other ∙ here
          | inl same ↦
              let there : stored w (hpa_key d) ≡ some x = ap (stored w) (sym (same ∙ key)) ∙ here in
              let version = retargeted_version policy d h in
              let set : written.resource_version ≢ "" =
                λ e. versioned.numbered w (hpa_key d) h read (sym version ∙ e) in
              let changed : written.resource_version ≢ x.resource_version = λ e.
                let old = versioned.one_content w (hpa_key d) h x read there (sym version ∙ e) in
                cc (foreign, managed, old) in
              ap (stored (client.update_hpa written w).1) same
              ∙ versioned.update_conflict w written x (ap (stored w) (sym same) ∙ here) set changed
        ]

    create_keeps :
        (d : Deployment) (w : W)
        → stored w k ≡ some x
        → stored (client.create_hpa (desired_hpa_for_deployment policy d) w).1 k ≡ some x
    create_keeps d w here =
        let made = desired_hpa_for_deployment policy d in
        elim (key_cases k (key_of made)) [
          | inr other ↦ versioned.create_frame w made k other ∙ here
          | inl same ↦
              ap (stored (client.create_hpa made w).1) same
              ∙ versioned.create_exists w made x (ap (stored w) (sym same) ∙ here)
        ]

    Step-keeps :
        (d : Deployment) (w : W) (r : Option Error × W)
        → OptsInAt policy k d
        → stored w k ≡ some x
        → Step client policy d w r
        → stored r.1 k ≡ some x
    Step-keeps d w r opts here (Step.failed e is) =
        ap (λ (r : Option Error × W). stored r.1 k) is ∙ here
    Step-keeps d w r opts here (Step.kept_absent e off read gone is) =
        ap (λ (r : Option Error × W). stored r.1 k) is ∙ here
    Step-keeps d w r opts here (Step.kept_foreign h off read other is) =
        ap (λ (r : Option Error × W). stored r.1 k) is ∙ here
    Step-keeps d w r opts here (Step.kept h on read managed same is) =
        ap (λ (r : Option Error × W). stored r.1 k) is ∙ here
    Step-keeps d w r (inr on) here (Step.deleted h off read managed is) = absurd (cc (on, off))
    Step-keeps d w r (inl other) here (Step.deleted h off read managed is) =
        ap (λ (r : Option Error × W). stored r.1 k) is
        ∙ versioned.delete_frame w h k (λ e. other (e ∙ versioned.keyed w (hpa_key d) h read))
        ∙ here
    Step-keeps d w r opts here (Step.created e on read gone is) =
        ap (λ (r : Option Error × W). stored r.1 k) is ∙ create_keeps d w here
    Step-keeps d w r opts here (Step.updated h on read managed drifted is) =
        ap (λ (r : Option Error × W). stored r.1 k) is ∙ update_keeps d w h read managed here

  -- On reads from a cache that is behind the API server, too, the loop leaves an autoscaler that is
  -- not labelled as managed as it is, where the Deployments whose autoscaler would have its key opt
  -- in. This is for an API server that refuses to create what exists and to update what has changed
  -- since it was read, and for resource versions that each stand for one content.
  pub reconcile_deployment_hpas-keeps :
      (versioned : IsVersioned) (policy : WorkloadPolicy) (k : NamespacedName) (x : Hpa) (w : W)
      → is_managed_hpa (some x) ≡ false
      → ((ds : List Deployment)
          → client.list_deployments policy.meta.namespace w ≡ ok ds
          → All (OptsInAt policy k) ds)
      → stored w k ≡ some x
      → stored (reconcile_deployment_hpas client policy w).1 k ≡ some x
  reconcile_deployment_hpas-keeps versioned policy k x w foreign opts here =
      hpas_ind client policy (OptsInAt policy k) (λ w. stored w k ≡ some x)
        (λ d w opts before.
          Step-keeps versioned policy k x foreign d w (reconcile_deployment client policy d w) opts
            before (reconcile_deployment-Step client policy d w))
        w opts here
