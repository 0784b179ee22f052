-- ===== src/Reconcile/Steps.antt =====
-- The loop body of `reconcileDeploymentHPAs` as a step relation, and what a step does to the
-- autoscalers that an API server stores.
use platform_governance_oper.Prelude.{
  ◌≡◌, ◌≢◌, refl, ap, ◌∙◌, inl, inr, Bool, true, false, Option, none, some, Result, ok, err,
  Bool-cases, Result-cases,
}
use platform_governance_oper.Api.{WorkloadPolicy}
use platform_governance_oper.Kube.{Error, hpa_not_managed}
use platform_governance_oper.Hpa.{
  Deployment, Hpa, managed_hpa_name, hpa_enabled_for_deployment, desired_hpa_for_deployment,
  is_managed_hpa,
}
use platform_governance_oper.Hpa.Differs.{hpa_spec_drifted}
use platform_governance_oper.Hpa.Drift.{spec_view}
use platform_governance_oper.Reconcile.{
  NamespacedName, Client, is_not_found, delete_error, retargeted, reconcile_existing,
  reconcile_deployment,
}

abbrev pub key_of : Hpa → NamespacedName
key_of hpa = (hpa.namespace, hpa.name)

-- The key of the Deployment's autoscaler.
abbrev pub hpa_key : Deployment → NamespacedName
hpa_key d = (d.namespace, managed_hpa_name d.name)

-- The API server kept what the operator sets; it may have filled in other fields of the spec.
pub record IsSavedAs (hpa saved : Hpa) : Type 0 where
  pub labels : saved.labels ≡ hpa.labels
  pub view : spec_view saved.spec ≡ spec_view hpa.spec

module _ {W : Type 0} (client : Client W) where
  -- The client reads and writes the stored autoscalers without delay. A read may fail, and then
  -- says nothing of what is stored; a write that fails may or may not have stored its object.
  pub record IsStore (stored : W → NamespacedName → Option Hpa) : Type 0 where
    pub keyed : (w : W) (k : NamespacedName) (h : Hpa) → stored w k ≡ some h → key_of h ≡ k
    pub found :
        (w : W) (k : NamespacedName) (h : Hpa) → client.get_hpa k w ≡ ok h → stored w k ≡ some h
    pub missing :
        (w : W) (k : NamespacedName) (e : Error)
        → client.get_hpa k w ≡ err e
        → is_not_found e ≡ true
        → stored w k ≡ none
    pub create_frame :
        (w : W) (h : Hpa) (k : NamespacedName)
        → k ≢ key_of h
        → stored (client.create_hpa h w).1 k ≡ stored w k
    pub created :
        (w : W) (h : Hpa)
        → (client.create_hpa h w).0 ≡ none
        → (saved : Hpa) × (stored (client.create_hpa h w).1 (key_of h) ≡ some saved)
          × IsSavedAs h saved
    pub update_frame :
        (w : W) (h : Hpa) (k : NamespacedName)
        → k ≢ key_of h
        → stored (client.update_hpa h w).1 k ≡ stored w k
    pub updated :
        (w : W) (h : Hpa)
        → (client.update_hpa h w).0 ≡ none
        → (saved : Hpa) × (stored (client.update_hpa h w).1 (key_of h) ≡ some saved)
          × IsSavedAs h saved
    pub delete_frame :
        (w : W) (h : Hpa) (k : NamespacedName)
        → k ≢ key_of h
        → stored (client.delete_hpa h w).1 k ≡ stored w k
    pub deleted :
        (w : W) (h : Hpa)
        → delete_error client (client.delete_hpa h w).0 ≡ none
        → stored (client.delete_hpa h w).1 (key_of h) ≡ none

  module _ (policy : WorkloadPolicy) (d : Deployment) (w : W) where
    abbrev pub Enabled : Bool → Type 0
    Enabled b = hpa_enabled_for_deployment d policy.spec.horizontal_scaling ≡ ok b

    abbrev pub Read : Result Error Hpa → Type 0
    Read r = client.get_hpa (hpa_key d) w ≡ r

    -- The ways in which a round of the loop ends, with its error and the state after it.
    pub data Step (r : Option Error × W) : Type 0 where
      failed : (e : Error) → r ≡ (some e, w) → Step r
      kept_absent :
          (e : Error)
          → Enabled false
          → Read (err e)
          → is_not_found e ≡ true
          → r ≡ (none, w)
          → Step r
      kept_foreign :
          (h : Hpa)
          → Enabled false
          → Read (ok h)
          → is_managed_hpa (some h) ≡ false
          → r ≡ (none, w)
          → Step r
      deleted :
          (h : Hpa)
          → Enabled false
          → Read (ok h)
          → is_managed_hpa (some h) ≡ true
          → r ≡ (delete_error client (client.delete_hpa h w).0, (client.delete_hpa h w).1)
          → Step r
      created :
          (e : Error)
          → Enabled true
          → Read (err e)
          → is_not_found e ≡ true
          → r ≡ client.create_hpa (desired_hpa_for_deployment policy d) w
          → Step r
      kept :
          (h : Hpa)
          → Enabled true
          → Read (ok h)
          → is_managed_hpa (some h) ≡ true
          → hpa_spec_drifted h (desired_hpa_for_deployment policy d) ≡ false
          → r ≡ (none, w)
          → Step r
      updated :
          (h : Hpa)
          → Enabled true
          → Read (ok h)
          → is_managed_hpa (some h) ≡ true
          → hpa_spec_drifted h (desired_hpa_for_deployment policy d) ≡ true
          → r ≡ client.update_hpa (retargeted client policy d h) w
          → Step r

    Step-of_existing :
        (enabled : Bool) (h : Hpa)
        → Enabled enabled
        → Read (ok h)
        → Step (reconcile_existing client policy d enabled h w)
    unfolding reconcile_existing
    Step-of_existing true h on read = elim (Bool-cases (is_managed_hpa (some h))) [
      | inr foreign ↦ Step.failed (hpa_not_managed h.namespace h.name) (rw foreign refl)
      | inl managed ↦ elim (Bool-cases (hpa_spec_drifted h (desired_hpa_for_deployment policy d))) [
        | inl drifted ↦ Step.updated h on read managed drifted (rw managed (rw drifted refl))
        | inr same ↦ Step.kept h on read managed same (rw managed (rw same refl))
      ]
    ]
    Step-of_existing false h off read = elim (Bool-cases (is_managed_hpa (some h))) [
      | inr foreign ↦ Step.kept_foreign h off read foreign (rw foreign refl)
      | inl managed ↦ Step.deleted h off read managed (rw managed refl)
    ]

    -- A round of the loop of `reconcileDeploymentHPAs` is always a step of the relation `Step`: it
    -- fails and writes nothing, or it keeps, deletes, creates or updates the autoscaler under the
    -- conditions that the relation gives for each.
    pub reconcile_deployment-Step : Step (reconcile_deployment client policy d w)
    unfolding reconcile_deployment
    reconcile_deployment-Step =
        elim (Result-cases (hpa_enabled_for_deployment d policy.spec.horizontal_scaling)) [
          | inr (e, bad) ↦ Step.failed e (rw (bad, reconcile_deployment) refl)
          | inl (enabled, flag) ↦ elim (Result-cases (client.get_hpa (hpa_key d) w)) [
            | inl (h, read) ↦
                rw (flag, reconcile_deployment) (rw read (Step-of_existing enabled h flag read))
            | inr (e, read) ↦ elim (Bool-cases (is_not_found e)) [
              | inr other ↦
                  Step.failed e (rw (flag, reconcile_deployment) (rw read (rw other refl)))
              | inl gone ↦ elim (Bool-cases enabled) [
                | inl on ↦
                    Step.created e (flag ∙ ap ok on) read gone
                      (rw (flag ∙ ap ok on, reconcile_deployment) (rw read (rw gone refl)))
                | inr off ↦
                    Step.kept_absent e (flag ∙ ap ok off) read gone
                      (rw (flag ∙ ap ok off, reconcile_deployment) (rw read (rw gone refl)))
              ]
            ]
          ]
        ]
