-- ===== src/Reconcile/Governed.antt =====
-- `reconcileDeploymentHPAs`: what holds of the stored autoscalers after it, and what it leaves
-- alone.
use platform_governance_oper.Prelude.{
  ◌≡◌, refl, sym, ap, ◌∙◌, ◌⊎◌, inl, inr, Bool, true, false, Option, none, some, ok,
}
use platform_governance_oper.Api.{WorkloadPolicy}
use platform_governance_oper.Kube.{Error}
use platform_governance_oper.Hpa.{
  Deployment, Hpa, hpa_enabled_for_deployment, desired_hpa_for_deployment, is_managed_hpa,
  ensure_managed_hpa_metadata,
}
use platform_governance_oper.Hpa.Drift.{spec_view, hpa_spec_drifted-false_iff}
use platform_governance_oper.Hpa.Enabled.{desired-is_managed, ensured-is_managed}
use platform_governance_oper.Reconcile.{NamespacedName, Client, retargeted}
use platform_governance_oper.Reconcile.Steps.{IsStore, IsSavedAs, key_of, hpa_key, Step}

pub desired_key :
    (policy : WorkloadPolicy) (d : Deployment)
    → key_of (desired_hpa_for_deployment policy d) ≡ hpa_key d
unfolding desired_hpa_for_deployment
desired_key policy d = refl

module _ {W : Type 0} (client : Client W) where
  pub retargeted_key :
      (policy : WorkloadPolicy) (d : Deployment) (h : Hpa)
      → key_of (retargeted client policy d h) ≡ key_of h
  unfolding ensure_managed_hpa_metadata
  retargeted_key policy d h = refl

  pub retargeted_view :
      (policy : WorkloadPolicy) (d : Deployment) (h : Hpa)
      → spec_view (retargeted client policy d h).spec
        ≡ spec_view (desired_hpa_for_deployment policy d).spec
  unfolding ensure_managed_hpa_metadata
  retargeted_view policy d h = refl

saved-is_managed :
    (hpa saved : Hpa)
    → IsSavedAs hpa saved
    → is_managed_hpa (some hpa) ≡ true
    → is_managed_hpa (some saved) ≡ true
unfolding is_managed_hpa
saved-is_managed hpa saved s h = rw s.labels h

module _ {W : Type 0} (client : Client W) (stored : W → NamespacedName → Option Hpa)
    (policy : WorkloadPolicy) where
  abbrev pub Wants : Deployment → Bool → Type 0
  Wants d b = hpa_enabled_for_deployment d policy.spec.horizontal_scaling ≡ ok b

  -- The Deployment opted in and its autoscaler is managed and as desired, or it opted out and
  -- has no managed autoscaler.
  abbrev pub IsGoverned : W → Deployment → Type 0
  IsGoverned w d =
      (Wants d true
        × (h : Hpa) × (stored w (hpa_key d) ≡ some h)
        × (is_managed_hpa (some h) ≡ true)
        × (spec_view h.spec ≡ spec_view (desired_hpa_for_deployment policy d).spec))
      ⊎ (Wants d false
          × ((stored w (hpa_key d) ≡ none)
              ⊎ ((h : Hpa) × (stored w (hpa_key d) ≡ some h) × (is_managed_hpa (some h) ≡ false))))

  -- It says something of the Deployment's own key only.
  pub IsGoverned-same :
      (w w' : W) (d : Deployment)
      → stored w' (hpa_key d) ≡ stored w (hpa_key d)
      → IsGoverned w d
      → IsGoverned w' d
  IsGoverned-same w w' d e (inl (on, h, here, managed, view)) = inl (on, h, e ∙ here, managed, view)
  IsGoverned-same w w' d e (inr (off, inl gone)) = inr (off, inl (e ∙ gone))
  IsGoverned-same w w' d e (inr (off, inr (h, here, foreign))) =
      inr (off, inr (h, e ∙ here, foreign))

  module _ (store : IsStore client stored) (d : Deployment) (w : W) where
    abbrev At : Option Error × W → Option Hpa
    At r = stored r.1 (hpa_key d)

    saved_at :
        (r r' : Option Error × W) (hpa : Hpa)
        → r ≡ r'
        → key_of hpa ≡ hpa_key d
        → ((saved : Hpa) × (stored r'.1 (key_of hpa) ≡ some saved) × IsSavedAs hpa saved)
        → (saved : Hpa) × (At r ≡ some saved) × IsSavedAs hpa saved
    saved_at r r' hpa e key (saved, here, s) =
        (saved, ap At e ∙ sym (ap (λ k. stored r'.1 k) key) ∙ here, s)

    pub Step-IsGoverned :
        (r : Option Error × W) → Step client policy d w r → r.0 ≡ none → IsGoverned r.1 d
    Step-IsGoverned r (Step.failed e is) done =
        absurd (cc (done, ap (λ (r : Option Error × W). r.0) is))
    Step-IsGoverned r (Step.kept_absent e off read gone is) done =
        inr (off, inl (ap At is ∙ store.missing w (hpa_key d) e read gone))
    Step-IsGoverned r (Step.kept_foreign h off read foreign is) done =
        inr (off, inr (h, ap At is ∙ store.found w (hpa_key d) h read, foreign))
    Step-IsGoverned r (Step.deleted h off read managed is) done =
        let key = store.keyed w (hpa_key d) h (store.found w (hpa_key d) h read) in
        let gone = store.deleted w h (sym (ap (λ (r : Option Error × W). r.0) is) ∙ done) in
        inr (off, inl (ap At is ∙ sym (ap (λ k. stored (client.delete_hpa h w).1 k) key) ∙ gone))
    Step-IsGoverned r (Step.created e on read gone is) done =
        let hpa = desired_hpa_for_deployment policy d in
        let (saved, here, s) =
          saved_at r (client.create_hpa hpa w) hpa is (desired_key policy d)
            (store.created w hpa (sym (ap (λ (r : Option Error × W). r.0) is) ∙ done)) in
        inl (on, saved, here, saved-is_managed hpa saved s (desired-is_managed policy d), s.view)
    Step-IsGoverned r (Step.kept h on read managed same is) done = inl (
      on,
      h,
      ap At is ∙ store.found w (hpa_key d) h read,
      managed,
      (hpa_spec_drifted-false_iff h (desired_hpa_for_deployment policy d)).0 same,
    )
    Step-IsGoverned r (Step.updated h on read managed drifted is) done =
        let hpa = retargeted client policy d h in
        let key = store.keyed w (hpa_key d) h (store.found w (hpa_key d) h read) in
        let (saved, here, s) =
          saved_at r (client.update_hpa hpa w) hpa is (retargeted_key client policy d h ∙ key)
            (store.updated w hpa (sym (ap (λ (r : Option Error × W). r.0) is) ∙ done)) in
        inl (
          on,
          saved,
          here,
          saved-is_managed hpa saved s (
              ensured-is_managed (record h { spec = (desired_hpa_for_deployment policy d).spec })
                policy.meta.name),
          s.view ∙ retargeted_view client policy d h,
        )
