-- ===== src/Setup/Watch.antt =====
-- A change of a Deployment reaches the policy that manages its namespace's autoscalers.
use mathlib.Core.List.{Mem, mem-map_of_mem}
use platform_governance_oper.Prelude.{◌≡◌, subst, true, List, map, ok, All, All-mem, String-set}
use platform_governance_oper.Api.{WorkloadPolicy}
use platform_governance_oper.Reconcile.{NamespacedName, Client, is_highest_priority_policy}
use platform_governance_oper.Reconcile.Highest.{is_highest_priority_policy_iff}
use platform_governance_oper.Setup.{requests_for}

abbrev pub policy_key : WorkloadPolicy → NamespacedName
policy_key policy = (policy.meta.namespace, policy.meta.name)

-- A change of a Deployment enqueues the policy that counts as the highest of the namespace, where
-- the policies of the namespace, and only these, are listed.
pub requests_for-mem :
    {W : Type 0} (client : Client W) (policy : WorkloadPolicy) (w : W) (ps : List WorkloadPolicy)
    → client.list_policies policy.meta.namespace w ≡ ok ps
    → All (λ p. p.meta.namespace ≡ policy.meta.namespace) ps
    → is_highest_priority_policy client policy w ≡ ok true
    → Mem (policy_key policy) (requests_for client policy.meta.namespace w)
unfolding requests_for
requests_for-mem client policy w ps listed within highest =
    let (top, is_top, named) =
      (is_highest_priority_policy_iff client policy w ps listed).0 highest in
    let here : top.meta.namespace ≡ policy.meta.namespace =
      All-mem (λ p. p.meta.namespace ≡ policy.meta.namespace)
        (λ p. String-set p.meta.namespace policy.meta.namespace) ps within top is_top.listed in
    let requested : Mem (policy_key top) (map policy_key ps) =
      mem-map_of_mem policy_key is_top.listed in
    rw (listed, requests_for)
      (subst (λ k. Mem k (map policy_key ps)) (λ i. (here i, named i)) requested)
