-- ===== src/Reconcile/Quiet.antt =====
-- `WorkloadPolicyReconciler.Reconcile` run again: what it reads has not changed, so it writes
-- nothing.
use platform_governance_oper.Prelude.{
  ◌≡◌, refl, sym, ap, ◌∙◌, subst, inl, inr, Bool, true, false, Option, none, List, [], ok, arith,
  All, Option-cases, Bool-cases,
}
use platform_governance_oper.Api.{WorkloadPolicy, Condition}
use platform_governance_oper.Hpa.{Deployment, Hpa, desired_hpa_for_deployment}
use platform_governance_oper.Reconcile.{
  NamespacedName, Client, scales, is_highest_priority_policy, reconcile_deployment_hpas,
}
use platform_governance_oper.Reconcile.Steps.{IsStore}
use platform_governance_oper.Reconcile.Rest.{IsPolicyStore, hpas-SameRest}
use platform_governance_oper.Reconcile.Governed.{IsGoverned}
use platform_governance_oper.Reconcile.Converge.{DistinctKeys, hpas-governed}
use platform_governance_oper.Reconcile.Status.{
  Outcome, available, update_available_status_if_changed, reconcile_status, reconcile,
}
use platform_governance_oper.Reconcile.Whole.{StatusApart, reconcile_cases, reconcile-IsGoverned}

-- A reconcile that wrote nothing and recorded no event.
abbrev pub IsQuiet : {W : Type 0} → W → Outcome W Unit → Type 0
IsQuiet w o = (o.state ≡ w) × (o.events ≡ [])

module _ {W : Type 0} (client : Client W) (stored : W → NamespacedName → Option Hpa)
    (store : IsStore client stored) (apart : StatusApart client stored)
    (rest : IsPolicyStore client) (has_recorder : Bool) where
  abbrev set_available : WorkloadPolicy → List Condition × Bool
  set_available policy =
      client.set_status_condition policy.status.conditions
        (available policy.meta "WorkloadPolicy is available and being enforced")

  abbrev marked : WorkloadPolicy → WorkloadPolicy
  marked policy = record policy { status = record { conditions = (set_available policy).0 } }

  status_unchanged :
      (policy : WorkloadPolicy) (w : W)
      → (set_available policy).1 ≡ false
      → reconcile_status has_recorder client policy w
        ≡ record { state = w; events = []; result = ok tt }
  unfolding reconcile_status update_available_status_if_changed
  status_unchanged policy w same = ground (arith, same)

  status_state :
      (policy : WorkloadPolicy) (w : W)
      → (set_available policy).1 ≡ true
      → (reconcile_status has_recorder client policy w).result ≡ ok tt
      → ((client.update_policy_status (marked policy) w).0 ≡ none)
        × ((reconcile_status has_recorder client policy w).state
            ≡ (client.update_policy_status (marked policy) w).1)
  unfolding reconcile_status update_available_status_if_changed
  status_state policy w changed fine =
      elim (Option-cases (client.update_policy_status (marked policy) w).0) [
        | inr (e, bad) ↦ absurd (ground (arith, changed, bad, fine))
        | inl done ↦ (done, ground (arith, changed, done))
      ]

  -- A policy whose status and Deployments are in order is left as it is.
  in_order :
      (key : NamespacedName) (policy : WorkloadPolicy) (ds : List Deployment) (w : W)
      → client.get_policy key w ≡ ok policy
      → client.list_deployments policy.meta.namespace w ≡ ok ds
      → (set_available policy).1 ≡ false
      → All (IsGoverned client stored policy w) ds
      → IsQuiet w (reconcile has_recorder client key w)
  in_order key policy ds w read listed same governed =
      let hpas = hpas-governed client stored policy store ds w listed governed in
      elim (reconcile_cases client stored apart has_recorder key w policy read) [
        | inl (_, is) ↦ from (is ∙ status_unchanged policy w same) (refl, refl)
        | inr (inl (e, is)) ↦ from is (refl, refl)
        | inr (inr (_, _, inl (e, _, is))) ↦ from is (hpas, refl)
        | inr (inr (_, _, inr (_, is))) ↦
            from (is ∙ status_unchanged policy (reconcile_deployment_hpas client policy w).1 same)
              (hpas, refl)
      ]
    where
      from :
          {o : Outcome W Unit}
          → reconcile has_recorder client key w ≡ o
          → IsQuiet w o
          → IsQuiet w (reconcile has_recorder client key w)
      from is quiet = subst (IsQuiet w) (sym is) quiet

  marked-All :
      (policy : WorkloadPolicy) (w : W) (ds : List Deployment)
      → All (IsGoverned client stored policy w) ds
      → All (IsGoverned client stored (marked policy) w) ds
  unfolding desired_hpa_for_deployment
  marked-All policy w ds governed = governed

  -- After a reconcile of the policy of the highest priority that reports no error, another one
  -- writes nothing and records no event. This is for a client that reads and
  -- writes without delay, whose writes change nothing else, and for Deployments with distinct keys.
  pub reconcile-IsQuiet :
      (key : NamespacedName) (w : W) (policy : WorkloadPolicy) (ds : List Deployment)
      → client.get_policy key w ≡ ok policy
      → scales policy ≡ true
      → is_highest_priority_policy client policy w ≡ ok true
      → client.list_deployments policy.meta.namespace w ≡ ok ds
      → DistinctKeys ds
      → (reconcile has_recorder client key w).result ≡ ok tt
      → IsQuiet
          (reconcile has_recorder client key w).state
          (reconcile has_recorder client key (reconcile has_recorder client key w).state)
  reconcile-IsQuiet key w policy ds read on top listed distinct fine =
      let after = (reconcile has_recorder client key w).state in
      let governed =
        reconcile-IsGoverned client stored apart has_recorder store key w policy ds read on top
          listed distinct fine in
      elim (reconcile_cases client stored apart has_recorder key w policy read) [
        | inl (inl off, _) ↦ absurd (cc (on, off))
        | inl (inr other, _) ↦ absurd (cc (top, other))
        | inr (inl (e, is)) ↦ absurd (cc (fine, ap (λ (o : Outcome W Unit). o.result) is))
        | inr (inr (_, _, inl (e, _, is))) ↦
            absurd (cc (fine, ap (λ (o : Outcome W Unit). o.result) is))
        | inr (inr (_, _, inr (done, is))) ↦
            let w' = (reconcile_deployment_hpas client policy w).1 in
            let same = hpas-SameRest client rest policy w in
            let state = ap (λ (o : Outcome W Unit). o.state) is in
            elim (Bool-cases (set_available policy).1) [
              | inr unchanged ↦
                  let here : after ≡ w' =
                    state
                    ∙ ap (λ (o : Outcome W Unit). o.state) (status_unchanged policy w' unchanged) in
                  in_order key policy ds after
                    (ap (client.get_policy key) here ∙ same.policies key ∙ read)
                    (ap (client.list_deployments policy.meta.namespace) here
                      ∙ same.deployments policy.meta.namespace
                      ∙ listed)
                    unchanged governed
              | inl changed ↦
                  let (written, updated) =
                    status_state policy w' changed
                      (sym (ap (λ (o : Outcome W Unit). o.result) is) ∙ fine) in
                  let here : after ≡ (client.update_policy_status (marked policy) w').1 =
                    state ∙ updated in
                  in_order key (marked policy) ds after
                    (ap (client.get_policy key) here
                      ∙ rest.reads_back key w' policy (marked policy) (same.policies key ∙ read)
                          refl refl written)
                    (ap (client.list_deployments policy.meta.namespace) here
                      ∙ rest.status_written w' (marked policy) policy.meta.namespace
                      ∙ same.deployments policy.meta.namespace
                      ∙ listed)
                    (rest.set_again policy.status.conditions
                      (available policy.meta "WorkloadPolicy is available and being enforced"))
                    (marked-All policy after ds governed)
            ]
      ]
