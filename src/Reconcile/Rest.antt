-- ===== src/Reconcile/Rest.antt =====
-- What the writes of a reconcile leave alone: policies and Deployments.
use platform_governance_oper.Prelude.{String, ◌≡◌, refl, ◌∙◌, false, none, List, ok}
use platform_governance_oper.Api.{WorkloadPolicy, Condition}
use platform_governance_oper.Hpa.{Hpa}
use platform_governance_oper.Reconcile.{NamespacedName, Client, reconcile_deployment_hpas}
use platform_governance_oper.Reconcile.Keeps.{IsKept, hpas-keep}

module _ {W : Type 0} (client : Client W) where
  -- Both states have the same policies and Deployments.
  pub record SameRest (w w' : W) : Type 0 where
    pub policies : (key : NamespacedName) → client.get_policy key w' ≡ client.get_policy key w
    pub deployments :
        (namespace : String)
        → client.list_deployments namespace w' ≡ client.list_deployments namespace w

  -- Writes of autoscalers change no policy and no Deployment, writes of a status no Deployment. A
  -- policy is read back as its status was last updated, and `meta.SetStatusCondition` reports no
  -- change when it sets a condition again.
  pub record IsPolicyStore : Type 0 where
    pub created : (w : W) (h : Hpa) → SameRest w (client.create_hpa h w).1
    pub updated : (w : W) (h : Hpa) → SameRest w (client.update_hpa h w).1
    pub deleted : (w : W) (h : Hpa) → SameRest w (client.delete_hpa h w).1
    pub status_written :
        (w : W) (policy : WorkloadPolicy) (namespace : String)
        → client.list_deployments namespace (client.update_policy_status policy w).1
          ≡ client.list_deployments namespace w
    pub reads_back :
        (key : NamespacedName) (w : W) (old new : WorkloadPolicy)
        → client.get_policy key w ≡ ok old
        → new.meta ≡ old.meta
        → new.spec ≡ old.spec
        → (client.update_policy_status new w).0 ≡ none
        → client.get_policy key (client.update_policy_status new w).1 ≡ ok new
    pub set_again :
        (cs : List Condition) (c : Condition)
        → (client.set_status_condition (client.set_status_condition cs c).0 c).1 ≡ false

  SameRest-refl : (w : W) → SameRest w w
  SameRest-refl w = record { policies = λ _. refl; deployments = λ _. refl }

  SameRest-trans : {w w' w'' : W} → SameRest w w' → SameRest w' w'' → SameRest w w''
  SameRest-trans first second = record {
    policies = λ key. second.policies key ∙ first.policies key;
    deployments = λ namespace. second.deployments namespace ∙ first.deployments namespace;
  }

  module _ (rest : IsPolicyStore) where
    SameRest-IsKept : IsKept client SameRest
    SameRest-IsKept = record {
      same = SameRest-refl;
      then = λ first second. SameRest-trans first second;
      created = rest.created;
      updated = rest.updated;
      deleted = rest.deleted;
    }

    -- So does the loop over Deployments.
    pub hpas-SameRest :
        (policy : WorkloadPolicy) (w : W) → SameRest w (reconcile_deployment_hpas client policy w).1
    hpas-SameRest = hpas-keep client SameRest SameRest-IsKept
