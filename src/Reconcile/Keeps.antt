-- ===== src/Reconcile/Keeps.antt =====
-- What holds between the states before and after a write holds between those before and after a
-- reconcile.
use platform_governance_oper.Prelude.{
  ◌≡◌, sym, subst, inl, inr, Option, some, List, [], ◌∷◌, arith, Option-cases, Result-cases, All,
  ok,
}
use platform_governance_oper.Api.{WorkloadPolicy}
use platform_governance_oper.Kube.{Error}
use platform_governance_oper.Hpa.{Deployment, Hpa, desired_hpa_for_deployment}
use platform_governance_oper.Reconcile.{
  Client, reconcile_deployment, reconcile_deployments, reconcile_deployment_hpas,
}
use platform_governance_oper.Reconcile.Steps.{Step, reconcile_deployment-Step}
use platform_governance_oper.Reconcile.Steps

module _ {W : Type 0} (client : Client W) (policy : WorkloadPolicy) where
  -- What each round keeps, for Deployments of some kind, a loop over such Deployments keeps.
  pub deployments_ind :
      (Q : Deployment → Type 0) (P : W → Type 0)
      → ((d : Deployment) (w : W) → Q d → P w → P (reconcile_deployment client policy d w).1)
      → (ds : List Deployment) (w : W) → All Q ds
      → P w
      → P (reconcile_deployments client policy ds w).1
  unfolding reconcile_deployments
  deployments_ind Q P round [] w q p = p
  deployments_ind Q P round (d ∷ ds) w (here, q) p =
      let w' = (reconcile_deployment client policy d w).1 in
      let p' = round d w here p in
      elim (Option-cases (reconcile_deployment client policy d w).0) [
        | inr (e, bad) ↦
            let is : reconcile_deployments client policy (d ∷ ds) w ≡ (some e, w') =
              ground (arith, bad) in
            subst (λ (r : Option Error × W). P r.1) (sym is) p'
        | inl fine ↦
            let is : reconcile_deployments client policy (d ∷ ds) w
                ≡ reconcile_deployments client policy ds w' =
              ground (arith, fine) in
            subst (λ (r : Option Error × W). P r.1) (sym is) (deployments_ind Q P round ds w' q p')
      ]

  -- And so does the whole of `reconcileDeploymentHPAs`.
  pub hpas_ind :
      (Q : Deployment → Type 0) (P : W → Type 0)
      → ((d : Deployment) (w : W) → Q d → P w → P (reconcile_deployment client policy d w).1)
      → (w : W)
      → ((ds : List Deployment)
          → client.list_deployments policy.meta.namespace w ≡ ok ds
          → All Q ds)
      → P w
      → P (reconcile_deployment_hpas client policy w).1
  unfolding reconcile_deployment_hpas
  hpas_ind Q P round w q p = elim (Result-cases (client.list_deployments policy.meta.namespace w)) [
    | inr (e, bad) ↦ rw (bad, reconcile_deployment_hpas) p
    | inl (ds, listed) ↦
        rw (listed, reconcile_deployment_hpas) (deployments_ind Q P round ds w (q ds listed) p)
  ]

pub any : (ds : List Deployment) → All (λ _. Unit {0}) ds
any [] = tt
any (d ∷ ds) = (tt, any ds)

module _ {W : Type 0} (client : Client W) (R : W → W → Type 0) where
  -- The relation composes, and every write of an autoscaler is in it.
  pub record IsKept : Type 0 where
    pub same : (w : W) → R w w
    pub then : {w w' w'' : W} → R w w' → R w' w'' → R w w''
    pub created : (w : W) (h : Hpa) → R w (client.create_hpa h w).1
    pub updated : (w : W) (h : Hpa) → R w (client.update_hpa h w).1
    pub deleted : (w : W) (h : Hpa) → R w (client.delete_hpa h w).1

  module _ (kept : IsKept) (policy : WorkloadPolicy) where
    Step-keeps :
        (d : Deployment) (w : W) (r : Option Error × W) → Step client policy d w r → R w r.1
    Step-keeps d w r s = elim s [
      | Steps.failed e is ↦ at is (kept.same w)
      | Steps.kept_absent e _ _ _ is ↦ at is (kept.same w)
      | Steps.kept_foreign h _ _ _ is ↦ at is (kept.same w)
      | Steps.deleted h _ _ _ is ↦ at is (kept.deleted w h)
      | Steps.created e _ _ _ is ↦ at is (kept.created w (desired_hpa_for_deployment policy d))
      | Steps.kept h _ _ _ _ is ↦ at is (kept.same w)
      | Steps.updated h _ _ _ _ is ↦ at is (kept.updated w _)
    ]
      where
        at : {r' : Option Error × W} → r ≡ r' → R w r'.1 → R w r.1
        at is holds = subst (λ (r : Option Error × W). R w r.1) (sym is) holds

    pub hpas-keep : (w : W) → R w (reconcile_deployment_hpas client policy w).1
    hpas-keep w =
        hpas_ind client policy (λ _. Unit) (R w)
          (λ d w' _ before. kept.then before (
            Step-keeps d w' (reconcile_deployment client policy d w')
              (reconcile_deployment-Step client policy d w')))
          w (λ ds _. any ds) (kept.same w)
