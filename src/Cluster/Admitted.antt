-- ===== src/Cluster/Admitted.antt =====
-- A Pod that gets past both webhooks of internal/webhook/core, in a cluster whose policies went
-- through theirs.
use mathlib.Core.List.{Memᴰ}
use platform_governance_oper.Prelude.{
  ◌≡◌, ap, ◌∙◌, subst, Option, some, List, [], ◌∷◌, All, All-among, All-of_sorted, Result, ok,
  IsSliceSort,
}
use platform_governance_oper.Api.{WorkloadPolicy, SecurityBaseline, TelemetryProfile}
use platform_governance_oper.Kube.{Pod, Error, Request, allowed}
use platform_governance_oper.Defaults.Resources.{HasValidQuantities}
use platform_governance_oper.PolicyWebhook.Workload.{IsAdmissible}
use platform_governance_oper.Mutator.{
  PodMutator, policy_before, profile_before, sort_workload_policies_by_priority,
  sort_telemetry_profiles_by_priority,
}
use platform_governance_oper.Mutator.Supplied.{IsSupplied, IsSupplied-of_settled, IsSupplied-prop}
use platform_governance_oper.Mutator.Finished.{IsFinished-like, mutate-IsFinished}
use platform_governance_oper.Mutator.Given.{Gives, Gives-like, mutate-Gives}
use platform_governance_oper.Mutator.Valid.{HasValidQuantities-sorted}
use platform_governance_oper.Mutator.Handle.{IsRead, outcome}
use platform_governance_oper.Mutator.Sent.{ReadsBack, Sends, Sends-IsRead, sent-like}
use platform_governance_oper.Telemetry.Again.{AreTraced}
use platform_governance_oper.Telemetry.Unmutated.{AreTraced-prop}
use platform_governance_oper.Validator.{PodValidator}
use platform_governance_oper.Validator
use platform_governance_oper.Validator.Verdict.{CompliesWithAll}
use platform_governance_oper.Validator.Handle.{handle-allowed_iff}
use platform_governance_oper.Hpa.{Hpa}
use platform_governance_oper.Reconcile.{NamespacedName, Client}
use platform_governance_oper.Cluster.{Cluster, IsAtomic, Reach}
use platform_governance_oper.Cluster.Sound.{IsSound, Reach-IsSound}

module _ {Q Raw : Type 0} (m : PodMutator Q Raw) where
  -- The two webhooks let a pod pass: what the mutating one made of it, decoded.
  pub record Admits (v : PodValidator Q Raw) (req : Request Raw) (pod : Pod Q) : Type 0 where
    pub object : Raw
    pub sends : Sends m req object
    pub decode : Request Raw → Result Error (Pod Q)
    pub injected : m.decoder ≡ some decode
    pub decoded : decode (record req { object_raw = object }) ≡ ok pod
    pub accepts : (Validator.handle v (record req { object_raw = object })).0 ≡ allowed ""

module _ {W Q Raw : Type 0} (client : Client W) (stored : W → NamespacedName → Option Hpa)
    (m : PodMutator Q Raw) (v : PodValidator Q Raw) where
  quantities-among :
      (c : Cluster W) (policies : List WorkloadPolicy)
      → IsSound client stored m.parse_quantity c
      → All (λ p. Memᴰ p c.policies) policies
      → All (HasValidQuantities m.parse_quantity) policies
  quantities-among c policies sound among =
      valid policies
        (All-among (IsAdmissible m.parse_quantity) c.policies sound.policies policies among)
    where
      valid :
          (policies : List WorkloadPolicy)
          → All (IsAdmissible m.parse_quantity) policies
          → All (HasValidQuantities m.parse_quantity) policies
      valid [] h = tt
      valid (p ∷ policies) (a, h) = (a.quantities, valid policies h)

  -- In a cluster that is reached from a sound one, a pod that both webhooks let pass has come from
  -- the pod that was sent, with the policies and profiles of the namespace as the sorts leave them:
  -- each of its labels is the sent pod's own, else the mandatory label of the first policy that has
  -- one; each request, limit and variable of a container that is no init container is the
  -- container's own, else the parsed default of the first policy, or the variable of the first
  -- profile, that gives one; and nothing else of these containers differs. So the keys that any
  -- listed policy or profile gives are all there. And the pod complies with each listed baseline
  -- that does not exclude the namespace. The listed policies must be stored ones, and the sorts keep
  -- the promise of `sort.Slice`; the webhooks have one decoder, which reads back what was marshalled
  -- up to nil maps; and a write, failed or not, leaves each autoscaler alone or stores its object
  -- there.
  pub Reach-governs :
      (atomic : IsAtomic client stored m.parse_quantity) (sorts : IsSliceSort m.sort_policies)
      (sorts' : IsSliceSort m.sort_profiles) (same : v.decoder ≡ m.decoder)
      (reads_back : ReadsBack m) {c c' : Cluster W}
      → IsSound client stored m.parse_quantity c
      → Reach client stored m.parse_quantity c c'
      → (req : Request Raw) (policies : List WorkloadPolicy) (pod : Pod Q)
      → m.list_policies req.namespace ≡ ok policies
      → All (λ p. Memᴰ p c'.policies) policies
      → Admits m v req pod
      → ((sent : Pod Q) × (profiles : List TelemetryProfile) × IsRead m req sent policies profiles
          × Gives m.parse_quantity
              (sort_workload_policies_by_priority m policies)
              (sort_telemetry_profiles_by_priority m profiles)
              sent
              pod
          × All (IsSupplied pod) policies
          × All (AreTraced pod.containers) profiles)
        × ((bs : List SecurityBaseline) × (v.list_baselines req.namespace ≡ ok bs)
            × CompliesWithAll pod req.namespace bs)
  unfolding sort_workload_policies_by_priority sort_telemetry_profiles_by_priority
  Reach-governs atomic sorts sorts' same reads_back {c} {c'} sound reach req policies pod listed
        among a =
      let here = Reach-IsSound client stored m.parse_quantity atomic sound reach in
      let valid = quantities-among c' policies here among in
      let (pod', bs, read, complies) =
        (handle-allowed_iff v (record req { object_raw = a.object })).0 a.accepts in
      let same_pod : pod' ≡ pod = cc (read.injected, a.injected, same, read.decoded, a.decoded) in
      let (sent, profiles, r) = Sends-IsRead m req policies a.object listed a.sends in
      let decode : r.decode ≡ a.decode = cc (r.injected, a.injected) in
      let policies' = sort_workload_policies_by_priority m policies in
      let profiles' = sort_telemetry_profiles_by_priority m profiles in
      let valid' = HasValidQuantities-sorted m.parse_quantity sorts policy_before policies valid in
      let like =
        sent-like m req sent policies profiles r reads_back valid' a.object pod a.sends
          (ap (λ d. d (record req { object_raw = a.object })) decode ∙ a.decoded) in
      let mutated = (outcome m req sent policies profiles).pod in
      let finished =
        IsFinished-like policies' profiles' mutated pod like
          (mutate-IsFinished m.parse_quantity profiles' policies' sent valid') in
      (
        (
          sent,
          profiles,
          r,
          Gives-like m.parse_quantity policies' profiles' sent mutated pod like
              (mutate-Gives m.parse_quantity policies' profiles' sent valid'),
          All-of_sorted sorts policy_before (IsSupplied pod) policies (IsSupplied-prop pod)
              (IsSupplied-of_settled pod policies' finished.settled),
          All-of_sorted sorts' profile_before (AreTraced pod.containers) profiles
              (AreTraced-prop pod.containers) finished.traced,
        ),
        (bs, read.listed, subst (λ p. CompliesWithAll p req.namespace bs) same_pod complies),
      )
