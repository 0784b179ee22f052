-- ===== src/Reconcile/Ends.antt =====
-- How `reconcileDeploymentHPAs` ends: after which rounds, and with which error.
use platform_governance_oper.Prelude.{
  ◌≡◌, refl, ap, ◌∙◌, subst, ◌⊎◌, inl, inr, ◌↔◌, Option, none, some, List, [], ◌∷◌, ◌++◌, ok, err,
  arith, Option-cases, Result-cases, sym,
}
use platform_governance_oper.Api.{WorkloadPolicy}
use platform_governance_oper.Kube.{Error}
use platform_governance_oper.Hpa.{Deployment}
use platform_governance_oper.Reconcile.{
  Client, reconcile_deployment, reconcile_deployments, reconcile_deployment_hpas,
}

module _ {W : Type 0} (client : Client W) (policy : WorkloadPolicy) where
  -- A round for each of the Deployments, in this order, leads from a state to another, without error.
  abbrev pub Passes : List Deployment → W → W → Type 0
  Passes [] w w' = w ≡ w'
  Passes (d ∷ ds) w w' =
      (next : W) × (reconcile_deployment client policy d w ≡ (none, next)) × Passes ds next w'

  -- The rounds for the Deployments before one pass, and the round for that one fails.
  pub record FailsAt (ds : List Deployment) (w : W) (e : Error) (w' : W) : Type 0 where
    pub before : List Deployment
    pub at : Deployment
    pub after : List Deployment
    pub between : W
    pub split : ds ≡ before ++ at ∷ after
    pub passes : Passes before w between
    pub fails : reconcile_deployment client policy at between ≡ (some e, w')

  reconcile_deployments_of_Passes :
      (ds : List Deployment) (w w' : W)
      → Passes ds w w'
      → reconcile_deployments client policy ds w ≡ (none, w')
  unfolding reconcile_deployments
  reconcile_deployments_of_Passes [] w w' h = ap (λ (w : W). (none, w)) h
  reconcile_deployments_of_Passes (d ∷ ds) w w' (next, here, h) =
      ground (arith, here, reconcile_deployments_of_Passes ds next w' h)

  reconcile_deployments_of_fails :
      (before after : List Deployment) (d : Deployment) (w between w' : W) (e : Error)
      → Passes before w between
      → reconcile_deployment client policy d between ≡ (some e, w')
      → reconcile_deployments client policy (before ++ d ∷ after) w ≡ (some e, w')
  unfolding reconcile_deployments
  reconcile_deployments_of_fails [] after d w between w' e h fails =
      let here : reconcile_deployment client policy d w ≡ (some e, w') =
        ap (reconcile_deployment client policy d) h ∙ fails in
      ground (arith, here)
  reconcile_deployments_of_fails (b ∷ before) after d w between w' e (next, here, h) fails =
      ground (arith, here, reconcile_deployments_of_fails before after d next between w' e h fails)

  FailsAt-cons :
      (d : Deployment) (ds : List Deployment) (w next w' : W) (e : Error)
      → reconcile_deployment client policy d w ≡ (none, next)
      → FailsAt ds next e w'
      → FailsAt (d ∷ ds) w e w'
  FailsAt-cons d ds w next w' e here f = record {
    before = d ∷ f.before;
    at = f.at;
    after = f.after;
    between = f.between;
    split = ap (λ ds. d ∷ ds) f.split;
    passes = (next, here, f.passes);
    fails = f.fails;
  }

  reconcile_deployments_cases :
      (ds : List Deployment) (w : W)
      → ((w' : W) × (reconcile_deployments client policy ds w ≡ (none, w')) × Passes ds w w')
        ⊎ ((e : Error) × (w' : W) × (reconcile_deployments client policy ds w ≡ (some e, w'))
            × FailsAt ds w e w')
  unfolding reconcile_deployments
  reconcile_deployments_cases [] w = inl (w, refl, refl)
  reconcile_deployments_cases (d ∷ ds) w =
      let r = reconcile_deployment client policy d w in
      elim (Option-cases r.0) [
        | inr (e, bad) ↦ inr (
          e,
          r.1,
          ground (arith, bad),
          record {
            before = [];
            at = d;
            after = ds;
            between = w;
            split = refl;
            passes = refl;
            fails = λ i. (bad i, r.1);
          },
        )
        | inl fine ↦
            let here : r ≡ (none, r.1) = λ i. (fine i, r.1) in
            elim (reconcile_deployments_cases ds r.1) [
              | inl (w', runs, passes) ↦ inl (w', ground (arith, fine, runs), (r.1, here, passes))
              | inr (e, w', runs, f) ↦
                  inr (e, w', ground (arith, fine, runs), FailsAt-cons d ds w r.1 w' e here f)
            ]
      ]

  -- From a state the loop ends with an error, or none, in another state: all listed Deployments pass
  -- in order; or they cannot be listed; or the first that does not pass gives the error.
  abbrev pub Ends : W → Option Error → W → Type 0
  Ends w none w' =
      (ds : List Deployment) × (client.list_deployments policy.meta.namespace w ≡ ok ds)
      × Passes ds w w'
  Ends w (some e) w' =
      ((client.list_deployments policy.meta.namespace w ≡ err e) × (w ≡ w'))
      ⊎ ((ds : List Deployment) × (client.list_deployments policy.meta.namespace w ≡ ok ds)
          × FailsAt ds w e w')

  ends :
      (w : W)
      → Ends w
          (reconcile_deployment_hpas client policy w).0
          (reconcile_deployment_hpas client policy w).1
  unfolding reconcile_deployment_hpas
  ends w = elim (Result-cases (client.list_deployments policy.meta.namespace w)) [
    | inr (e, bad) ↦
        let is : reconcile_deployment_hpas client policy w ≡ (some e, w) = ground (arith, bad) in
        subst (λ (r : Option Error × W). Ends w r.0 r.1) (sym is) (inl (bad, refl))
    | inl (ds, listed) ↦
        let is : reconcile_deployment_hpas client policy w
            ≡ reconcile_deployments client policy ds w =
          ground (arith, listed) in
        elim (reconcile_deployments_cases ds w) [
          | inl (w', runs, passes) ↦
              subst (λ (r : Option Error × W). Ends w r.0 r.1) (sym (is ∙ runs))
                (ds, listed, passes)
          | inr (e, w', runs, f) ↦
              subst (λ (r : Option Error × W). Ends w r.0 r.1) (sym (is ∙ runs))
                (inr (ds, listed, f))
        ]
  ]

  reconcile_deployment_hpas_of_Ends :
      (w : W) (e : Option Error) (w' : W)
      → Ends w e w'
      → reconcile_deployment_hpas client policy w ≡ (e, w')
  unfolding reconcile_deployment_hpas
  reconcile_deployment_hpas_of_Ends w none w' (ds, listed, passes) =
      ground (arith, listed, reconcile_deployments_of_Passes ds w w' passes)
  reconcile_deployment_hpas_of_Ends w (some e) w' (inl (bad, same)) = ground (arith, bad, same)
  reconcile_deployment_hpas_of_Ends w (some e) w' (inr (ds, listed, f)) =
      let runs =
        reconcile_deployments_of_fails f.before f.after f.at w f.between w' e f.passes f.fails in
      ground (arith, listed ∙ ap ok f.split, runs)

  -- The reconcile of the autoscalers of a policy ends without error in a state exactly where the
  -- Deployments of its namespace were listed and a round for each of them, in the order of the list,
  -- leads there without error. It ends with an error exactly where the list call gave it, and nothing
  -- was done; or where the round of one Deployment gave it, after those listed before it passed, and
  -- the state is the one that this round left: those listed after it are not visited.
  pub reconcile_deployment_hpas_iff :
      (w : W) (e : Option Error) (w' : W)
      → (reconcile_deployment_hpas client policy w ≡ (e, w')) ↔ Ends w e w'
  reconcile_deployment_hpas_iff w e w' = (
    λ is. subst (λ (r : Option Error × W). Ends w r.0 r.1) is (ends w),
    reconcile_deployment_hpas_of_Ends w e w',
  )
