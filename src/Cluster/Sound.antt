-- ===== src/Cluster/Sound.antt =====
-- What holds in every state that the cluster can reach.
use platform_governance_oper.Prelude.{
  String, ◌≡◌, sym, subst, false, Option, none, some, List, [], ◌∷◌, ◌++◌, All, All-append,
}
use platform_governance_oper.Api.{WorkloadPolicy, TelemetryProfile}
use platform_governance_oper.Kube.{Error, Pod}
use platform_governance_oper.Defaults.Resources.{HasValidQuantities}
use platform_governance_oper.Mutator.{mutate}
use platform_governance_oper.Mutator.Settled.{mutate-mutate}
use platform_governance_oper.PolicyWebhook.{
  validate_workload_policy, default_workload_policy, create,
}
use platform_governance_oper.PolicyWebhook.Workload.{
  IsAdmissible, validate_workload_policy_spec-none_iff,
}
use platform_governance_oper.Hpa.{Deployment, Hpa}
use platform_governance_oper.Reconcile.{NamespacedName, Client, reconcile_deployment}
use platform_governance_oper.Reconcile.Steps.{reconcile_deployment-Step}
use platform_governance_oper.Cluster.Range.{ManagedInRange, Step-ManagedInRange}
use platform_governance_oper.Cluster.{
  Cluster, IsAtomic, left_after, Step, created, updated, deleted, began, went_on, interfered, Reach,
  start, then,
}

-- A property of all elements, where others take the place of one of them.
module _ {ℓ κ} {A : Type ℓ} (P : A → Type κ) where
  pub All-at : (before : List A) (y : A) (after : List A) → All P (before ++ y ∷ after) → P y
  All-at [] y after (here, h) = here
  All-at (x ∷ before) y after (here, h) = All-at before y after h

  All-replace :
      (before : List A) (y : A) (after news : List A)
      → All P news
      → All P (before ++ y ∷ after)
      → All P (before ++ (news ++ after))
  All-replace [] y after news new (here, h) = All-append P news after new h
  All-replace (x ∷ before) y after news new (here, h) =
      (here, All-replace before y after news new h)

module _ {W Q : Type 0} (client : Client W) (stored : W → NamespacedName → Option Hpa)
    (parse_quantity : String → Option Q) where
  pub record IsSound (c : Cluster W) : Type 0 where
    pub policies : All (IsAdmissible parse_quantity) c.policies
    pub running :
        All (λ (r : WorkloadPolicy × List Deployment). IsAdmissible parse_quantity r.0) c.running
    pub managed : ManagedInRange client stored parse_quantity c.world

  module _ (atomic : IsAtomic client stored parse_quantity) where
    abbrev Admissible : WorkloadPolicy → Type 0
    Admissible = IsAdmissible parse_quantity

    abbrev Underway : WorkloadPolicy × List Deployment → Type 0
    Underway r = IsAdmissible parse_quantity r.0

    left_after-Underway :
        (e : Option Error) (policy : WorkloadPolicy) (ds : List Deployment)
        → IsAdmissible parse_quantity policy
        → All Underway (left_after client stored parse_quantity e policy ds)
    left_after-Underway none policy ds a = (a, tt)
    left_after-Underway (some e) policy ds a = tt

    validated :
        (obj : WorkloadPolicy)
        → validate_workload_policy parse_quantity (create obj) ≡ none
        → IsAdmissible parse_quantity obj
    unfolding validate_workload_policy
    validated obj valid = (validate_workload_policy_spec-none_iff parse_quantity obj).0 valid

    Step-IsSound :
        (c c' : Cluster W) → Step client stored parse_quantity c c' → IsSound c → IsSound c'
    unfolding validate_workload_policy
    Step-IsSound c c' (created obj valid is) s = subst IsSound (sym is) (record {
      policies = (validated (default_workload_policy obj) valid, s.policies);
      running = s.running;
      managed = s.managed;
    })
    Step-IsSound c c' (updated before after old obj at valid is) s =
        subst IsSound (sym is) (record {
          policies =
              All-replace Admissible before old after (default_workload_policy obj ∷ [])
                (validated (default_workload_policy obj) valid, tt)
                (subst (All Admissible) at s.policies);
          running = s.running;
          managed = s.managed;
        })
    Step-IsSound c c' (deleted before after old at is) s = subst IsSound (sym is) (record {
      policies =
          All-replace Admissible before old after [] tt (subst (All Admissible) at s.policies);
      running = s.running;
      managed = s.managed;
    })
    Step-IsSound c c' (began before after policy ds at scaling is) s =
        subst IsSound (sym is) (record {
          running = (
            All-at Admissible before policy after (subst (All Admissible) at s.policies),
            s.running,
          );
          policies = s.policies;
          managed = s.managed;
        })
    Step-IsSound c c' (went_on before after policy d ds at is) s =
        let running = subst (All Underway) at s.running in
        let admissible = All-at Underway before (policy, d ∷ ds) after running in
        let r = reconcile_deployment client policy d c.world in
        subst IsSound (sym is) (record {
          policies = s.policies;
          running =
              All-replace Underway before (policy, d ∷ ds) after
                (left_after client stored parse_quantity r.0 policy ds)
                (left_after-Underway r.0 policy ds admissible) running;
          managed =
              Step-ManagedInRange client stored parse_quantity atomic policy d c.world r admissible
                s.managed (reconcile_deployment-Step client policy d c.world);
        })
    Step-IsSound c c' (interfered w keeps is) s = subst IsSound (sym is) (record {
      managed = λ k h there labelled. s.managed k h (keeps k h there labelled) labelled;
      policies = s.policies;
      running = s.running;
    })

    All-HasValidQuantities :
        (policies : List WorkloadPolicy)
        → All (IsAdmissible parse_quantity) policies
        → All (HasValidQuantities parse_quantity) policies
    All-HasValidQuantities [] h = tt
    All-HasValidQuantities (p ∷ policies) (a, h) = (a.quantities, All-HasValidQuantities policies h)

    -- Whatever users do to policies through the webhooks and others to autoscalers that are not
    -- managed, and however rounds of reconciles come between, also for policies that were changed or
    -- deleted since: all stored policies stay admissible, and every managed autoscaler keeps
    -- 1 ≤ min ≤ max replicas and utilization targets from 1 to 100. A write, failed or not, must
    -- leave each key alone or store its object there.
    pub Reach-IsSound :
        {c c' : Cluster W} → IsSound c → Reach client stored parse_quantity c c' → IsSound c'
    Reach-IsSound s start = s
    Reach-IsSound {c} {c'} s (then r step) = Step-IsSound _ c' step (Reach-IsSound s r)

    -- In a cluster that is reached from a sound one, the mutating webhook has nothing left to do on
    -- its own result, for the policies stored there and all profiles and pods.
    Reach-mutate_idem :
        (c c' : Cluster W) (profiles : List TelemetryProfile) (pod : Pod Q)
        → IsSound c
        → Reach client stored parse_quantity c c'
        → ((mutate parse_quantity profiles c'.policies
              (mutate parse_quantity profiles c'.policies pod).pod).mutated
            ≡ false)
    Reach-mutate_idem c c' profiles pod s r =
        (mutate-mutate parse_quantity profiles c'.policies pod
          (All-HasValidQuantities c'.policies (Reach-IsSound s r).policies)).0
