-- ===== src/Reconcile/Lasting.antt =====
-- Whatever requests the WorkloadPolicy controller handles after it brought the autoscalers in order,
-- it leaves them in order.
use platform_governance_oper.Prelude.{
  ◌≡◌, sym, ap, ◌∙◌, subst, inl, inr, Bool, true, Option, List, [], ◌∷◌, ◌++◌, ok, All,
  Result-cases, Bool-cases, eq_iff, ◌==◌,
}
use platform_governance_oper.Api.{ObjectMeta, WorkloadPolicy}
use platform_governance_oper.Hpa.{Deployment, Hpa}
use platform_governance_oper.Reconcile.{
  NamespacedName, Client, scales, is_highest_priority_policy, reconcile_deployment_hpas,
}
use platform_governance_oper.Reconcile.Steps.{IsStore}
use platform_governance_oper.Reconcile.Governed.{IsGoverned}
use platform_governance_oper.Reconcile.Converge.{DistinctKeys, hpas-governed}
use platform_governance_oper.Reconcile.Status.{Outcome, reconcile_status, reconcile}
use platform_governance_oper.Reconcile.Whole.{
  StatusApart, reconcile_status-stored, reconcile_cases, reconcile-IsGoverned,
}
use platform_governance_oper.Reconcile.Specs.{
  SameSpecs, SameSpecs-trans, without_status, read_again, still_highest, one_highest,
}
use platform_governance_oper.Reconcile.Requests.{
  handled, handled-append, IsApiServer, once_of_missing, once-SameSpecs, handled-SameSpecs,
}
use platform_governance_oper.Reconcile.Frames.{
  IsGoverned-by, IsGoverned-frame, every_key, hpas-frame_all,
}

module _ {W : Type 0} (client : Client W) (stored : W → NamespacedName → Option Hpa) where
  -- What holds as long as the policies stay as they were in a state, up to their status.
  pub record Lasts (start : W) (policy : WorkloadPolicy) (ds : List Deployment) (w : W)
      : Type 0 where
    pub same : SameSpecs client start w
    pub governed : All (IsGoverned client stored policy w) ds

  module _ (store : IsStore client stored) (apart : StatusApart client stored)
      (server : IsApiServer client) (has_recorder : Bool) (key : NamespacedName) (start : W)
      (policy : WorkloadPolicy) (ds : List Deployment)
      (read : client.get_policy key start ≡ ok policy)
      (top : is_highest_priority_policy client policy start ≡ ok true)
      (listed : client.list_deployments policy.meta.namespace start ≡ ok ds) where
    -- The loop for the policy that counts as the highest of its namespace: it is this policy, which
    -- finds all in order, or one of another namespace.
    hpas-Lasts :
        (k : NamespacedName) (p : WorkloadPolicy) (w : W)
        → client.get_policy k w ≡ ok p
        → is_highest_priority_policy client p w ≡ ok true
        → Lasts start policy ds w
        → All (IsGoverned client stored policy (reconcile_deployment_hpas client p w).1) ds
    hpas-Lasts k p w found highest l =
        elim (Bool-cases (p.meta.namespace == policy.meta.namespace)) [
          | inr other ↦
              IsGoverned-frame client stored policy w (reconcile_deployment_hpas client p w).1 ds
                (hpas-frame_all client stored store server p w policy.meta.namespace ds
                  (λ e. cc ((eq_iff p.meta.namespace policy.meta.namespace).1 (sym e), other))
                  (server.placed policy.meta.namespace start ds listed))
                l.governed
          | inl here ↦
              let namespace : p.meta.namespace ≡ policy.meta.namespace =
                (eq_iff p.meta.namespace policy.meta.namespace).0 here in
              let name = one_highest client policy p l.same namespace top highest in
              let at : k ≡ key =
                sym (server.named k w p found)
                ∙ (λ i. (namespace i, name i))
                ∙ server.named key start policy read in
              let (p', found', like) = read_again client key policy l.same read in
              let same_policy : p' ≡ p = cc (found', found, ap (λ k. client.get_policy k w) at) in
              let same : without_status policy ≡ without_status p =
                sym like ∙ ap without_status same_policy in
              let still =
                hpas-governed client stored p store ds w
                  (ap (λ n. client.list_deployments n w) namespace
                    ∙ l.same.deployments policy.meta.namespace
                    ∙ listed)
                  (IsGoverned-by client stored policy p w ds same l.governed) in
              subst (λ w. All (IsGoverned client stored policy w) ds) (sym still) l.governed
        ]

    IsGoverned-unchanged :
        (w w' : W)
        → ((k : NamespacedName) → stored w' k ≡ stored w k)
        → All (IsGoverned client stored policy w) ds
        → All (IsGoverned client stored policy w') ds
    IsGoverned-unchanged w w' same =
        IsGoverned-frame client stored policy w w' ds (every_key client stored w w' ds same)

    once-IsGoverned :
        (k : NamespacedName) (w : W)
        → Lasts start policy ds w
        → All (IsGoverned client stored policy (reconcile has_recorder client k w).state) ds
    once-IsGoverned k w l = elim (Result-cases (client.get_policy k w)) [
      | inr (e, bad) ↦
          subst (λ w. All (IsGoverned client stored policy w) ds)
            (sym (once_of_missing client stored store apart server has_recorder k w e bad))
            l.governed
      | inl (p, found) ↦
          let w' = (reconcile_deployment_hpas client p w).1 in
          elim (reconcile_cases client stored apart has_recorder k w p found) [
            | inl (_, is) ↦ at is (status p w l.governed)
            | inr (inl (e, is)) ↦ at is l.governed
            | inr (inr (_, highest, inl (e, _, is))) ↦ at is (hpas-Lasts k p w found highest l)
            | inr (inr (_, highest, inr (_, is))) ↦
                at is (status p w' (hpas-Lasts k p w found highest l))
          ]
    ]
      where
        at :
            {o o' : Outcome W Unit}
            → o ≡ o'
            → All (IsGoverned client stored policy o'.state) ds
            → All (IsGoverned client stored policy o.state) ds
        at is h =
            subst (λ (o : Outcome W Unit). All (IsGoverned client stored policy o.state) ds)
              (sym is) h

        status :
            (p : WorkloadPolicy) (w : W)
            → All (IsGoverned client stored policy w) ds
            → All
                (IsGoverned client stored policy (reconcile_status has_recorder client p w).state)
                ds
        status p w h =
            IsGoverned-unchanged w (reconcile_status has_recorder client p w).state
              (reconcile_status-stored client stored apart has_recorder p w) h

    handled-Lasts :
        (keys : List NamespacedName) (w : W)
        → Lasts start policy ds w
        → Lasts start policy ds (handled has_recorder client keys w)
    handled-Lasts [] w l = l
    handled-Lasts (k ∷ keys) w l =
        handled-Lasts keys (reconcile has_recorder client k w).state (record {
          same =
              SameSpecs-trans client l.same
                (once-SameSpecs client stored store apart server has_recorder k w);
          governed = once-IsGoverned k w l;
        })

    -- Once a reconcile of the policy of the highest priority of a namespace reported no error, every
    -- listed Deployment of the namespace that opts in has a managed autoscaler as desired, and one
    -- that opts out has no managed one, whatever requests came before and whatever requests follow,
    -- for any policies and failing or not. This is for requests that are handled one after the other
    -- while nobody else writes, a client that reads and writes without delay, objects that are read
    -- under their names and listed in their namespaces, writes that change no policy but in its
    -- status and no Deployment, status updates that leave autoscalers alone, and Deployments with
    -- distinct keys.
    pub handled-IsGoverned :
        (before after : List NamespacedName)
        → scales policy ≡ true
        → DistinctKeys ds
        → (reconcile has_recorder client key (handled has_recorder client before start)).result
          ≡ ok tt
        → All
            (IsGoverned client stored policy
              (handled has_recorder client (before ++ key ∷ after) start))
            ds
    handled-IsGoverned before after scaling distinct fine =
        let w = handled has_recorder client before start in
        let same = handled-SameSpecs client stored store apart server has_recorder before start in
        let (p, found, like) = read_again client key policy same read in
        let meta : p.meta ≡ policy.meta = ap (λ (p : WorkloadPolicy). p.meta) like in
        let governed =
          reconcile-IsGoverned client stored apart has_recorder store key w p ds found
            (ap scales like ∙ scaling) (still_highest client policy p same meta top)
            (ap (λ (m : ObjectMeta). client.list_deployments m.namespace w) meta
              ∙ same.deployments policy.meta.namespace
              ∙ listed)
            distinct fine in
        let now : Lasts start policy ds (reconcile has_recorder client key w).state = record {
          same =
              SameSpecs-trans client same
                (once-SameSpecs client stored store apart server has_recorder key w);
          governed =
              IsGoverned-by client stored p policy (reconcile has_recorder client key w).state ds
                like governed;
        } in
        subst (λ w. All (IsGoverned client stored policy w) ds)
          (sym (handled-append has_recorder client before (key ∷ after) start))
          (handled-Lasts after (reconcile has_recorder client key w).state now).governed
