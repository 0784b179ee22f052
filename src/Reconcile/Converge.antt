-- ===== src/Reconcile/Converge.antt =====
-- `reconcileDeploymentHPAs`: the loop over Deployments.
use platform_governance_oper.Prelude.{
  ◌≡◌, ◌≢◌, refl, sym, ap, ◌∙◌, subst, ◌⊎◌, inl, inr, false, Option, none, some, List, [], ◌∷◌,
  arith, ok, All, Option-cases,
}
use platform_governance_oper.Api.{WorkloadPolicy}
use platform_governance_oper.Kube.{Error}
use platform_governance_oper.Hpa.{Deployment, Hpa, is_managed_hpa}
use platform_governance_oper.Reconcile.{
  NamespacedName, Client, reconcile_deployment, reconcile_deployments, reconcile_deployment_hpas,
}
use platform_governance_oper.Reconcile.Steps.{IsStore, hpa_key, reconcile_deployment-Step}
use platform_governance_oper.Reconcile.Keeps.{deployments_ind, hpas_ind, any}
use platform_governance_oper.Reconcile.Governed.{IsGoverned, IsGoverned-same, Step-IsGoverned}
use platform_governance_oper.Reconcile.Rounds.{Step-frame, Step-governed, Step-foreign}

-- No two Deployments have the same key.
abbrev pub DistinctKeys : List Deployment → Type 0
DistinctKeys [] = Unit
DistinctKeys (d ∷ ds) = All (λ d'. hpa_key d ≢ hpa_key d') ds × DistinctKeys ds

module _ {W : Type 0} (client : Client W) (stored : W → NamespacedName → Option Hpa)
    (policy : WorkloadPolicy) (store : IsStore client stored) where
  abbrev run : List Deployment → W → Option Error × W
  run = reconcile_deployments client policy

  abbrev round : Deployment → W → Option Error × W
  round = reconcile_deployment client policy

  -- The loop goes on after a round without an error, and else stops with its result.
  run-cons_cases :
      (d : Deployment) (ds : List Deployment) (w : W)
      → (((round d w).0 ≡ none) × (run (d ∷ ds) w ≡ run ds (round d w).1))
        ⊎ ((e : Error) × ((round d w).0 ≡ some e) × (run (d ∷ ds) w ≡ (some e, (round d w).1)))
  unfolding reconcile_deployments
  run-cons_cases d ds w = elim (Option-cases (round d w).0) [
    | inl fine ↦ inl (fine, ground (arith, fine))
    | inr (e, bad) ↦ inr (e, bad, ground (arith, bad))
  ]

  -- The loop over Deployments with other keys leaves a key alone.
  pub run-frame :
      (k : NamespacedName) (ds : List Deployment) (w : W)
      → All (λ d. k ≢ hpa_key d) ds
      → stored (run ds w).1 k ≡ stored w k
  run-frame k ds w others =
      deployments_ind client policy (λ d. k ≢ hpa_key d) (λ w'. stored w' k ≡ stored w k)
        (λ d w' other before.
          Step-frame client stored policy store d w' k (round d w') other
            (reconcile_deployment-Step client policy d w')
          ∙ before)
        ds w others refl

  run-governed :
      (ds : List Deployment) (w : W) → All (IsGoverned client stored policy w) ds → (run ds w).1 ≡ w
  unfolding reconcile_deployments
  run-governed [] w g = refl
  run-governed (d ∷ ds) w (here, g) =
      let still =
        Step-governed client stored policy store d w (round d w) here
          (reconcile_deployment-Step client policy d w) in
      elim (run-cons_cases d ds w) [
        | inr (e, bad, is) ↦ ap (λ (r : Option Error × W). r.1) is ∙ still
        | inl (fine, is) ↦
            ap (λ (r : Option Error × W). r.1) is
            ∙ ap (λ (w : W). (run ds w).1) still
            ∙ run-governed ds w g
      ]

  pub hpas-governed :
      (ds : List Deployment) (w : W)
      → client.list_deployments policy.meta.namespace w ≡ ok ds
      → All (IsGoverned client stored policy w) ds
      → (reconcile_deployment_hpas client policy w).1 ≡ w
  unfolding reconcile_deployment_hpas
  hpas-governed ds w listed governed =
      rw (listed, reconcile_deployment_hpas) (run-governed ds w governed)

  -- Once the loop ends without an error, every Deployment of the list is governed: with its opt-in
  -- it has a managed autoscaler as desired, without it no managed one. No two Deployments may have
  -- the same key, and the client reads and writes without delay.
  pub reconcile_deployments-IsGoverned :
      (ds : List Deployment) (w : W)
      → DistinctKeys ds
      → (reconcile_deployments client policy ds w).0 ≡ none
      → All (IsGoverned client stored policy (reconcile_deployments client policy ds w).1) ds
  unfolding reconcile_deployments
  reconcile_deployments-IsGoverned [] w distinct done = tt
  reconcile_deployments-IsGoverned (d ∷ ds) w (other, distinct) done =
      elim (run-cons_cases d ds w) [
        | inr (e, bad, is) ↦ absurd (cc (done, ap (λ (r : Option Error × W). r.0) is))
        | inl (fine, is) ↦
            let w' = (round d w).1 in
            let here =
              Step-IsGoverned client stored policy store d w (round d w)
                (reconcile_deployment-Step client policy d w) fine in
            subst (λ (r : Option Error × W). All (IsGoverned client stored policy r.1) (d ∷ ds))
              (sym is)
              (
                IsGoverned-same client stored policy w' (run ds w').1 d
                    (run-frame (hpa_key d) ds w' other) here,
                reconcile_deployments-IsGoverned ds w' distinct
                    (sym (ap (λ (r : Option Error × W). r.0) is) ∙ done),
              )
      ]

  -- After the loop ended without an error, another run of it over the same Deployments writes
  -- nothing, even if the API server filled in fields of the spec that the operator does not set.
  -- No two Deployments may have the same key, and the client reads and writes without delay.
  reconcile_deployments_idem :
      (ds : List Deployment) (w : W)
      → DistinctKeys ds
      → (reconcile_deployments client policy ds w).0 ≡ none
      → (reconcile_deployments client policy ds (reconcile_deployments client policy ds w).1).1
        ≡ (reconcile_deployments client policy ds w).1
  reconcile_deployments_idem ds w distinct done =
      run-governed ds (run ds w).1 (reconcile_deployments-IsGoverned ds w distinct done)

  -- Failing or not, the controller never changes or deletes an autoscaler that is not labelled as
  -- managed by the operator.
  pub reconcile_deployment_hpas-foreign :
      (w : W) (k : NamespacedName) (hpa : Hpa)
      → stored w k ≡ some hpa
      → is_managed_hpa (some hpa) ≡ false
      → stored (reconcile_deployment_hpas client policy w).1 k ≡ some hpa
  reconcile_deployment_hpas-foreign w k hpa here foreign =
      hpas_ind client policy (λ _. Unit) (λ w. stored w k ≡ some hpa)
        (λ d w _ before.
          Step-foreign client stored policy store d w k hpa (round d w) before foreign
            (reconcile_deployment-Step client policy d w))
        w (λ ds _. any ds) here
