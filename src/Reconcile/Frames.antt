-- ===== src/Reconcile/Frames.antt =====
-- What a reconcile does not touch: Deployments whose autoscalers are as before, and those of other
-- namespaces than its policy's.
use platform_governance_oper.Prelude.{
  String, ◌≡◌, ◌≢◌, refl, sym, ap, ◌∙◌, subst, inl, inr, Option, List, [], ◌∷◌, All, Result-cases,
}
use platform_governance_oper.Api.{WorkloadPolicy}
use platform_governance_oper.Hpa.{Deployment, Hpa, desired_hpa_for_deployment}
use platform_governance_oper.Reconcile.{NamespacedName, Client, reconcile_deployment_hpas}
use platform_governance_oper.Reconcile.Steps.{IsStore, hpa_key}
use platform_governance_oper.Reconcile.Governed.{IsGoverned, IsGoverned-same}
use platform_governance_oper.Reconcile.Converge.{run-frame}
use platform_governance_oper.Reconcile.Specs.{without_status}
use platform_governance_oper.Reconcile.Requests.{IsApiServer}

module _ {W : Type 0} (client : Client W) (stored : W → NamespacedName → Option Hpa) where
  -- What a policy wants of autoscalers does not depend on its status.
  pub IsGoverned-by :
      (p p' : WorkloadPolicy) (w : W) (ds : List Deployment)
      → without_status p ≡ without_status p'
      → All (IsGoverned client stored p w) ds
      → All (IsGoverned client stored p' w) ds
  unfolding desired_hpa_for_deployment
  IsGoverned-by p p' w ds same h = subst (λ p. All (IsGoverned client stored p w) ds) same h

  -- Deployments whose autoscalers are as before stay governed.
  pub IsGoverned-frame :
      (p : WorkloadPolicy) (w w' : W) (ds : List Deployment)
      → All (λ d. stored w' (hpa_key d) ≡ stored w (hpa_key d)) ds
      → All (IsGoverned client stored p w) ds
      → All (IsGoverned client stored p w') ds
  IsGoverned-frame p w w' [] same h = tt
  IsGoverned-frame p w w' (d ∷ ds) (e, same) (here, h) =
      (IsGoverned-same client stored p w w' d e here, IsGoverned-frame p w w' ds same h)

  pub every_key :
      (w w' : W) (ds : List Deployment)
      → ((k : NamespacedName) → stored w' k ≡ stored w k)
      → All (λ d. stored w' (hpa_key d) ≡ stored w (hpa_key d)) ds
  every_key w w' [] same = tt
  every_key w w' (d ∷ ds) same = (same (hpa_key d), every_key w w' ds same)

  other_keys :
      (namespace : String) (d : Deployment) (ds : List Deployment)
      → d.namespace ≢ namespace
      → All (λ (d : Deployment). d.namespace ≡ namespace) ds
      → All (λ d'. hpa_key d ≢ hpa_key d') ds
  other_keys namespace d [] other h = tt
  other_keys namespace d (d' ∷ ds) other (here, h) =
      ((λ e. other (ap (λ (k : NamespacedName). k.0) e ∙ here)), other_keys namespace d ds other h)

  module _ (store : IsStore client stored) (server : IsApiServer client) where
    -- A loop over the Deployments of one namespace leaves the autoscalers of others alone.
    hpas-frame :
        (p : WorkloadPolicy) (w : W) (d : Deployment)
        → d.namespace ≢ p.meta.namespace
        → stored (reconcile_deployment_hpas client p w).1 (hpa_key d) ≡ stored w (hpa_key d)
    unfolding reconcile_deployment_hpas
    hpas-frame p w d other = elim (Result-cases (client.list_deployments p.meta.namespace w)) [
      | inr (e, bad) ↦ rw (bad, reconcile_deployment_hpas) refl
      | inl (ds, listed) ↦
          rw (listed, reconcile_deployment_hpas)
            (run-frame client stored p store (hpa_key d) ds w
              (other_keys p.meta.namespace d ds other (server.placed p.meta.namespace w ds listed)))
    ]

    pub hpas-frame_all :
        (p : WorkloadPolicy) (w : W) (namespace : String) (ds : List Deployment)
        → namespace ≢ p.meta.namespace
        → All (λ (d : Deployment). d.namespace ≡ namespace) ds
        → All
            (λ d.
              stored (reconcile_deployment_hpas client p w).1 (hpa_key d) ≡ stored w (hpa_key d))
            ds
    hpas-frame_all p w namespace [] other h = tt
    hpas-frame_all p w namespace (d ∷ ds) other (here, h) =
        (hpas-frame p w d (λ e. other (sym here ∙ e)), hpas-frame_all p w namespace ds other h)
