-- ===== src/Reconcile/Requests.antt =====
-- The requests that the WorkloadPolicy controller handles one after the other: whatever they are,
-- the autoscalers stay as the policy of the highest priority wants them.
use platform_governance_oper.Prelude.{
  String, ◌≡◌, ◌⊎◌, refl, sym, subst, inl, inr, Bool, Option, List, [], ◌∷◌, ◌++◌, ok, err, arith,
  All, Option-cases, Result-cases, Bool-cases,
}
use platform_governance_oper.Api.{WorkloadPolicy}
use platform_governance_oper.Kube.{Error}
use platform_governance_oper.Hpa.{Deployment, Hpa}
use platform_governance_oper.Reconcile.{NamespacedName, Client, reconcile_deployment_hpas}
use platform_governance_oper.Reconcile.Steps.{IsStore}
use platform_governance_oper.Reconcile.Status.{
  Outcome, available, update_available_status_if_changed, reconcile_status, reconcile,
}
use platform_governance_oper.Reconcile.Whole.{StatusApart, reconcile_cases}
use platform_governance_oper.Reconcile.Keeps.{IsKept, hpas-keep}
use platform_governance_oper.Reconcile.Specs.{SameSpecs, SameSpecs-refl, SameSpecs-trans}

module _ {W : Type 0} (has_recorder : Bool) (client : Client W) where
  -- The state after the requests.
  abbrev pub handled : List NamespacedName → W → W
  handled [] w = w
  handled (key ∷ keys) w = handled keys (reconcile has_recorder client key w).state

  pub handled-append :
      (keys keys' : List NamespacedName) (w : W)
      → handled (keys ++ keys') w ≡ handled keys' (handled keys w)
  handled-append [] keys' w = refl
  handled-append (key ∷ keys) keys' w =
      handled-append keys keys' (reconcile has_recorder client key w).state

module _ {W : Type 0} (client : Client W) where
  -- Objects are read under their names and listed in their namespaces. No write of the controller
  -- changes a policy but in its status, or a Deployment.
  pub record IsApiServer : Type 0 where
    pub named :
        (key : NamespacedName) (w : W) (policy : WorkloadPolicy)
        → client.get_policy key w ≡ ok policy
        → (policy.meta.namespace, policy.meta.name) ≡ key
    pub placed :
        (namespace : String) (w : W) (ds : List Deployment)
        → client.list_deployments namespace w ≡ ok ds
        → All (λ (d : Deployment). d.namespace ≡ namespace) ds
    pub created : (w : W) (h : Hpa) → SameSpecs client w (client.create_hpa h w).1
    pub updated : (w : W) (h : Hpa) → SameSpecs client w (client.update_hpa h w).1
    pub deleted : (w : W) (h : Hpa) → SameSpecs client w (client.delete_hpa h w).1
    pub status_updated :
        (w : W) (policy : WorkloadPolicy)
        → SameSpecs client w (client.update_policy_status policy w).1

module _ {W : Type 0} (client : Client W) (stored : W → NamespacedName → Option Hpa)
    (store : IsStore client stored) (apart : StatusApart client stored)
    (server : IsApiServer client) (has_recorder : Bool) where
  abbrev pub once : NamespacedName → W → Outcome W Unit
  once = reconcile has_recorder client

  SameSpecs-IsKept : IsKept client (SameSpecs client)
  SameSpecs-IsKept = record {
    same = SameSpecs-refl client;
    then = λ first second. SameSpecs-trans client first second;
    created = server.created;
    updated = server.updated;
    deleted = server.deleted;
  }

  hpas-SameSpecs :
      (policy : WorkloadPolicy) (w : W)
      → SameSpecs client w (reconcile_deployment_hpas client policy w).1
  hpas-SameSpecs = hpas-keep client (SameSpecs client) SameSpecs-IsKept

  -- The status is as it was, or is written.
  status_cases :
      (policy : WorkloadPolicy) (w : W)
      → ((reconcile_status has_recorder client policy w).state ≡ w)
        ⊎ ((written : WorkloadPolicy) × ((reconcile_status has_recorder client policy w).state
              ≡ (client.update_policy_status written w).1))
  unfolding reconcile_status update_available_status_if_changed
  status_cases policy w =
      let message : String = "WorkloadPolicy is available and being enforced" in
      let set =
        client.set_status_condition policy.status.conditions (available policy.meta message) in
      elim (Bool-cases set.1) [
        | inr same ↦ inl (ground (arith, same))
        | inl changed ↦
            let written : WorkloadPolicy = record policy {
              status = record { conditions = set.0 };
            } in
            elim (Option-cases (client.update_policy_status written w).0) [
              | inl fine ↦ inr (written, ground (arith, changed, fine))
              | inr (e, bad) ↦ inr (written, ground (arith, changed, bad))
            ]
      ]

  status-SameSpecs :
      (policy : WorkloadPolicy) (w : W)
      → SameSpecs client w (reconcile_status has_recorder client policy w).state
  status-SameSpecs policy w = elim (status_cases policy w) [
    | inl is ↦ subst (SameSpecs client w) (sym is) (SameSpecs-refl client w)
    | inr (written, is) ↦ subst (SameSpecs client w) (sym is) (server.status_updated w written)
  ]

  pub once_of_missing :
      (key : NamespacedName) (w : W) (e : Error)
      → client.get_policy key w ≡ err e
      → (once key w).state ≡ w
  unfolding reconcile
  once_of_missing key w e bad = ground (arith, bad)

  pub once-SameSpecs : (key : NamespacedName) (w : W) → SameSpecs client w (once key w).state
  once-SameSpecs key w = elim (Result-cases (client.get_policy key w)) [
    | inr (e, bad) ↦
        subst (SameSpecs client w) (sym (once_of_missing key w e bad)) (SameSpecs-refl client w)
    | inl (policy, read) ↦
        let w' = (reconcile_deployment_hpas client policy w).1 in
        elim (reconcile_cases client stored apart has_recorder key w policy read) [
          | inl (_, is) ↦ at is (status-SameSpecs policy w)
          | inr (inl (e, is)) ↦ at is (SameSpecs-refl client w)
          | inr (inr (_, _, inl (e, _, is))) ↦ at is (hpas-SameSpecs policy w)
          | inr (inr (_, _, inr (_, is))) ↦
              at is (SameSpecs-trans client (hpas-SameSpecs policy w) (status-SameSpecs policy w'))
        ]
  ]
    where
      at :
          {o o' : Outcome W Unit}
          → o ≡ o'
          → SameSpecs client w o'.state
          → SameSpecs client w o.state
      at is same = subst (λ (o : Outcome W Unit). SameSpecs client w o.state) (sym is) same

  pub handled-SameSpecs :
      (keys : List NamespacedName) (w : W) → SameSpecs client w (handled has_recorder client keys w)
  handled-SameSpecs [] w = SameSpecs-refl client w
  handled-SameSpecs (key ∷ keys) w =
      SameSpecs-trans client (once-SameSpecs key w) (handled-SameSpecs keys (once key w).state)
