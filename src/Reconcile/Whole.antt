-- ===== src/Reconcile/Whole.antt =====
-- The Reconcile methods as a whole.
use platform_governance_oper.Prelude.{
  String, ◌≡◌, ◌≢◌, refl, sym, ap, ◌∙◌, ◌⊎◌, inl, inr, Bool, true, false, Option, none, some, List,
  [], ◌∷◌, ok, err, arith, All, Result-cases, Option-cases, Bool-cases,
}
use platform_governance_oper.Api.{WorkloadPolicy}
use platform_governance_oper.Kube.{Error}
use platform_governance_oper.Hpa.{Deployment, Hpa, is_managed_hpa}
use platform_governance_oper.Reconcile.{
  NamespacedName, Client, scales, is_highest_priority_policy, reconcile_deployments,
  reconcile_deployment_hpas,
}
use platform_governance_oper.Reconcile.Steps.{IsStore, hpa_key}
use platform_governance_oper.Reconcile.Governed.{IsGoverned, IsGoverned-same}
use platform_governance_oper.Reconcile.Converge.{
  DistinctKeys, reconcile_deployments-IsGoverned, reconcile_deployment_hpas-foreign,
}
use platform_governance_oper.Reconcile.Status.{
  Outcome, available, update_available_status_if_changed, reconcile_status, reconcile,
}

module _ {W : Type 0} (client : Client W) (stored : W → NamespacedName → Option Hpa) where
  -- An update of a policy's status leaves the stored autoscalers as they are.
  abbrev pub StatusApart : Type 0
  StatusApart =
      (w : W) (policy : WorkloadPolicy) (k : NamespacedName)
      → stored (client.update_policy_status policy w).1 k ≡ stored w k

  module _ (apart : StatusApart) (has_recorder : Bool) where
    pub reconcile_status-stored :
        (policy : WorkloadPolicy) (w : W) (k : NamespacedName)
        → stored (reconcile_status has_recorder client policy w).state k ≡ stored w k
    unfolding reconcile_status update_available_status_if_changed
    reconcile_status-stored policy w k =
        let meta = policy.meta in
        let message : String = "WorkloadPolicy is available and being enforced" in
        let set = client.set_status_condition policy.status.conditions (available meta message) in
        elim (Bool-cases set.1) [
          | inr same ↦ ground (arith, same)
          | inl changed ↦
              let written : WorkloadPolicy = record policy {
                status = record { conditions = set.0 };
              } in
              elim (Option-cases (client.update_policy_status written w).0) [
                | inl fine ↦ ground (arith, changed, fine, apart w written k)
                | inr (e, bad) ↦ ground (arith, changed, bad, apart w written k)
              ]
        ]

    All-IsGoverned :
        (policy : WorkloadPolicy) (ds : List Deployment) (w w' : W)
        → ((k : NamespacedName) → stored w' k ≡ stored w k)
        → All (IsGoverned client stored policy w) ds
        → All (IsGoverned client stored policy w') ds
    All-IsGoverned policy [] w w' same h = tt
    All-IsGoverned policy (d ∷ ds) w w' same (here, h) = (
      IsGoverned-same client stored policy w w' d (same (hpa_key d)) here,
      All-IsGoverned policy ds w w' same h,
    )

    -- How a reconcile of a policy that is found goes on.
    pub reconcile_cases :
        (key : NamespacedName) (w : W) (policy : WorkloadPolicy)
        → client.get_policy key w ≡ ok policy
        → (((scales policy ≡ false) ⊎ (is_highest_priority_policy client policy w ≡ ok false))
            × (reconcile has_recorder client key w ≡ reconcile_status has_recorder client policy w))
          ⊎ (((e : Error) × (reconcile has_recorder client key w
                  ≡ record { state = w; events = []; result = err e }))
              ⊎ ((scales policy ≡ true)
                  × (is_highest_priority_policy client policy w ≡ ok true)
                  × (((e : Error) × ((reconcile_deployment_hpas client policy w).0 ≡ some e)
                        × (reconcile has_recorder client key w ≡ record {
                          state = (reconcile_deployment_hpas client policy w).1;
                          events = [];
                          result = err e;
                        }))
                      ⊎ (((reconcile_deployment_hpas client policy w).0 ≡ none)
                          × (reconcile has_recorder client key w
                              ≡ reconcile_status has_recorder client policy
                                  (reconcile_deployment_hpas client policy w).1)))))
    unfolding reconcile
    reconcile_cases key w policy read = elim (Bool-cases (scales policy)) [
      | inr off ↦ inl (inl off, rw (read, reconcile) (rw off refl))
      | inl on ↦ elim (Result-cases (is_highest_priority_policy client policy w)) [
        | inr (e, bad) ↦ inr (inl (e, rw (read, reconcile) (rw on (rw bad refl))))
        | inl (b, top) ↦ elim (Bool-cases b) [
          | inr other ↦
              let top' = top ∙ ap ok other in
              inl (inr top', rw (read, reconcile) (rw on (rw top' refl)))
          | inl this ↦
              let top' = top ∙ ap ok this in
              elim (Option-cases (reconcile_deployment_hpas client policy w).0) [
                | inr (e, bad) ↦ inr (
                    inr (
                      on,
                      top',
                      inl (e, bad, rw (read, reconcile) (rw on (rw top' (rw bad refl)))),
                    ))
                | inl fine ↦ inr (
                    inr
                      (on, top', inr (fine, rw (read, reconcile) (rw on (rw top' (rw fine refl))))))
              ]
        ]
      ]
    ]

    -- A reconcile of a policy that has no horizontal scaling, or does not count as the highest of
    -- its namespace, leaves every autoscaler as it is, given that status updates do so.
    pub reconcile-not_highest :
        (key : NamespacedName) (w : W) (policy : WorkloadPolicy) (k : NamespacedName)
        → client.get_policy key w ≡ ok policy
        → (scales policy ≡ false) ⊎ (is_highest_priority_policy client policy w ≢ ok true)
        → stored (reconcile has_recorder client key w).state k ≡ stored w k
    reconcile-not_highest key w policy k read lower = elim (reconcile_cases key w policy read) [
      | inl (_, is) ↦
          ap (λ (o : Outcome W Unit). stored o.state k) is ∙ reconcile_status-stored policy w k
      | inr (inl (e, is)) ↦ ap (λ (o : Outcome W Unit). stored o.state k) is
      | inr (inr (scaling, top, _)) ↦ elim lower [
        | inl off ↦ absurd (cc (scaling, off))
        | inr other ↦ absurd (other top)
      ]
    ]

    -- If a reconcile of the policy of the highest priority reports no error, then afterwards every
    -- listed Deployment of the namespace that opts in has a managed autoscaler as desired, and one
    -- that opts out has no managed autoscaler. This is for a client that reads and writes without
    -- delay, status updates that leave autoscalers alone, and Deployments with distinct keys.
    pub reconcile-IsGoverned :
        (store : IsStore client stored) (key : NamespacedName) (w : W) (policy : WorkloadPolicy)
        (ds : List Deployment)
        → client.get_policy key w ≡ ok policy
        → scales policy ≡ true
        → is_highest_priority_policy client policy w ≡ ok true
        → client.list_deployments policy.meta.namespace w ≡ ok ds
        → DistinctKeys ds
        → (reconcile has_recorder client key w).result ≡ ok tt
        → All (IsGoverned client stored policy (reconcile has_recorder client key w).state) ds
    unfolding reconcile_deployment_hpas
    reconcile-IsGoverned store key w policy ds read on top listed distinct fine =
        elim (reconcile_cases key w policy read) [
          | inl (inl off, _) ↦ absurd (cc (on, off))
          | inl (inr other, _) ↦ absurd (cc (top, other))
          | inr (inl (e, is)) ↦ absurd (cc (fine, ap (λ (o : Outcome W Unit). o.result) is))
          | inr (inr (_, _, inl (e, _, is))) ↦
              absurd (cc (fine, ap (λ (o : Outcome W Unit). o.result) is))
          | inr (inr (_, _, inr (done, is))) ↦
              let loop : reconcile_deployment_hpas client policy w
                  ≡ reconcile_deployments client policy ds w =
                rw (listed, reconcile_deployment_hpas) refl in
              let w' = (reconcile_deployments client policy ds w).1 in
              let governed =
                reconcile_deployments-IsGoverned client stored policy store ds w distinct
                  (sym (ap (λ (r : Option Error × W). r.0) loop) ∙ done) in
              All-IsGoverned policy ds w' (reconcile has_recorder client key w).state
                (λ k.
                  ap (λ (o : Outcome W Unit). stored o.state k) is
                  ∙ reconcile_status-stored policy (reconcile_deployment_hpas client policy w).1 k
                  ∙ ap (λ (r : Option Error × W). stored r.1 k) loop)
                governed
        ]

    -- Whatever its result, a reconcile of a policy that is found never changes or deletes an
    -- autoscaler that is not labelled as managed by the operator, for a client that reads and writes
    -- without delay and status updates that leave autoscalers alone.
    pub reconcile-foreign :
        (store : IsStore client stored) (key : NamespacedName) (w : W) (policy : WorkloadPolicy)
        (k : NamespacedName) (hpa : Hpa)
        → client.get_policy key w ≡ ok policy
        → stored w k ≡ some hpa
        → is_managed_hpa (some hpa) ≡ false
        → stored (reconcile has_recorder client key w).state k ≡ some hpa
    reconcile-foreign store key w policy k hpa read here foreign =
        let left =
          reconcile_deployment_hpas-foreign client stored policy store w k hpa here foreign in
        elim (reconcile_cases key w policy read) [
          | inl (_, is) ↦
              ap (λ (o : Outcome W Unit). stored o.state k) is
              ∙ reconcile_status-stored policy w k
              ∙ here
          | inr (inl (e, is)) ↦ ap (λ (o : Outcome W Unit). stored o.state k) is ∙ here
          | inr (inr (_, _, inl (e, _, is))) ↦
              ap (λ (o : Outcome W Unit). stored o.state k) is ∙ left
          | inr (inr (_, _, inr (_, is))) ↦
              ap (λ (o : Outcome W Unit). stored o.state k) is
              ∙ reconcile_status-stored policy (reconcile_deployment_hpas client policy w).1 k
              ∙ left
        ]
