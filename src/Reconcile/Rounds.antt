-- ===== src/Reconcile/Rounds.antt =====
-- `reconcileDeploymentHPAs`: what one round leaves alone.
use platform_governance_oper.Prelude.{◌≡◌, ◌≢◌, ap, ◌∙◌, subst, inl, inr, false, Option, some}
use platform_governance_oper.Api.{WorkloadPolicy}
use platform_governance_oper.Kube.{Error}
use platform_governance_oper.Hpa.{Deployment, Hpa, desired_hpa_for_deployment, is_managed_hpa}
use platform_governance_oper.Hpa.Drift.{spec_view, hpa_spec_drifted-false_iff}
use platform_governance_oper.Reconcile.{NamespacedName, Client, retargeted}
use platform_governance_oper.Reconcile.Steps.{IsStore, hpa_key, Step}
use platform_governance_oper.Reconcile.Governed.{desired_key, retargeted_key, IsGoverned}

module _ {W : Type 0} (client : Client W) (stored : W → NamespacedName → Option Hpa)
    (policy : WorkloadPolicy) (store : IsStore client stored) where
  module _ (d : Deployment) (w : W) where
    -- A round writes to the Deployment's own key only.
    pub Step-frame :
        (k : NamespacedName) (r : Option Error × W)
        → k ≢ hpa_key d
        → Step client policy d w r
        → stored r.1 k ≡ stored w k
    Step-frame k r other (Step.failed e is) = ap (λ (r : Option Error × W). stored r.1 k) is
    Step-frame k r other (Step.kept_absent e off read gone is) =
        ap (λ (r : Option Error × W). stored r.1 k) is
    Step-frame k r other (Step.kept_foreign h off read foreign is) =
        ap (λ (r : Option Error × W). stored r.1 k) is
    Step-frame k r other (Step.deleted h off read managed is) =
        let key = store.keyed w (hpa_key d) h (store.found w (hpa_key d) h read) in
        ap (λ (r : Option Error × W). stored r.1 k) is
        ∙ store.delete_frame w h k (λ e. other (e ∙ key))
    Step-frame k r other (Step.created e on read gone is) =
        ap (λ (r : Option Error × W). stored r.1 k) is
        ∙ store.create_frame w (desired_hpa_for_deployment policy d) k
            (λ e. other (e ∙ desired_key policy d))
    Step-frame k r other (Step.kept h on read managed same is) =
        ap (λ (r : Option Error × W). stored r.1 k) is
    Step-frame k r other (Step.updated h on read managed drifted is) =
        let key = store.keyed w (hpa_key d) h (store.found w (hpa_key d) h read) in
        ap (λ (r : Option Error × W). stored r.1 k) is
        ∙ store.update_frame w (retargeted client policy d h) k
            (λ e. other (e ∙ retargeted_key client policy d h ∙ key))

    -- A round writes nothing for a Deployment that is governed already.
    pub Step-governed :
        (r : Option Error × W)
        → IsGoverned client stored policy w d
        → Step client policy d w r
        → r.1 ≡ w
    Step-governed r g (Step.failed e is) = ap (λ (r : Option Error × W). r.1) is
    Step-governed r g (Step.kept_absent e off read gone is) = ap (λ (r : Option Error × W). r.1) is
    Step-governed r g (Step.kept_foreign h off read foreign is) =
        ap (λ (r : Option Error × W). r.1) is
    Step-governed r g (Step.kept h on read managed same is) = ap (λ (r : Option Error × W). r.1) is
    Step-governed r (inl (on, _, _, _, _)) (Step.deleted h off read managed is) =
        absurd (cc (on, off))
    Step-governed r (inr (_, inl gone)) (Step.deleted h off read managed is) =
        absurd (cc (gone, store.found w (hpa_key d) h read))
    Step-governed r (inr (_, inr (h', here, foreign))) (Step.deleted h off read managed is) =
        absurd (cc (here, foreign, managed, store.found w (hpa_key d) h read))
    Step-governed r (inr (off, _)) (Step.created e on read gone is) = absurd (cc (on, off))
    Step-governed r (inl (_, h, here, _, _)) (Step.created e on read gone is) =
        absurd (cc (here, store.missing w (hpa_key d) e read gone))
    Step-governed r (inr (off, _)) (Step.updated h on read managed drifted is) =
        absurd (cc (on, off))
    Step-governed r (inl (_, h', here, _, view)) (Step.updated h on read managed drifted is) =
        let same : h' ≡ h = cc (here, store.found w (hpa_key d) h read) in
        let settled = (hpa_spec_drifted-false_iff h (desired_hpa_for_deployment policy d)).1 (
          subst (λ h. spec_view h.spec ≡ spec_view (desired_hpa_for_deployment policy d).spec) same
            view) in
        absurd (cc (settled, drifted))

    -- A round that writes does not write to the key of an autoscaler that is not managed.
    pub Step-foreign :
        (k : NamespacedName) (x : Hpa) (r : Option Error × W)
        → stored w k ≡ some x
        → is_managed_hpa (some x) ≡ false
        → Step client policy d w r
        → stored r.1 k ≡ some x
    Step-foreign k x r here foreign (Step.failed e is) =
        ap (λ (r : Option Error × W). stored r.1 k) is ∙ here
    Step-foreign k x r here foreign (Step.kept_absent e off read gone is) =
        ap (λ (r : Option Error × W). stored r.1 k) is ∙ here
    Step-foreign k x r here foreign (Step.kept_foreign h off read other is) =
        ap (λ (r : Option Error × W). stored r.1 k) is ∙ here
    Step-foreign k x r here foreign (Step.kept h on read managed same is) =
        ap (λ (r : Option Error × W). stored r.1 k) is ∙ here
    Step-foreign k x r here foreign (Step.deleted h off read managed is) =
        let found = store.found w (hpa_key d) h read in
        Step-frame k r (λ e. cc (e, here, found, foreign, managed))
          (Step.deleted h off read managed is)
        ∙ here
    Step-foreign k x r here foreign (Step.created e on read gone is) =
        let missing = store.missing w (hpa_key d) e read gone in
        Step-frame k r (λ same. cc (same, here, missing)) (Step.created e on read gone is) ∙ here
    Step-foreign k x r here foreign (Step.updated h on read managed drifted is) =
        let found = store.found w (hpa_key d) h read in
        Step-frame k r (λ e. cc (e, here, found, foreign, managed))
          (Step.updated h on read managed drifted is)
        ∙ here
