-- ===== src/Mutator/Sent.antt =====
-- The object that the mutating webhook sends on, patched or not, and what the pod in it has.
use platform_governance_oper.Prelude.{
  String, ◌≡◌, sym, ap, ◌∙◌, subst, ◌⊎◌, inl, inr, false, some, List, All, arith, Result, ok,
  Bool-cases, Result-cases,
}
use platform_governance_oper.Api.{WorkloadPolicy, TelemetryProfile}
use platform_governance_oper.Kube.{Pod, Error, Request, Response, Event, allowed, patched, Progress}
use platform_governance_oper.Defaults.Resources.{HasValidQuantities}
use platform_governance_oper.Mutator.{
  PodMutator, respond, sort_workload_policies_by_priority, sort_telemetry_profiles_by_priority,
}
use platform_governance_oper.Mutator
use platform_governance_oper.Mutator.Grows.{made_pod}
use platform_governance_oper.Mutator.Handle.{
  IsRead, outcome, handle_of_read, handle_cases, respond-patched,
}
use platform_governance_oper.Mutator.Finished.{mutate-unmutated_like}

module _ {Q Raw : Type 0} (m : PodMutator Q Raw) where
  -- The decoder reads back what `json.Marshal` wrote, up to maps that were nil or empty.
  abbrev pub ReadsBack : Type 0
  ReadsBack =
      (decode : Request Raw → Result Error (Pod Q))
      → m.decoder ≡ some decode
      → (req : Request Raw) (pod : Pod Q) → m.marshal pod ≡ ok req.object_raw
      → (read : Pod Q) × (decode req ≡ ok read) × (made_pod read ≡ made_pod pod)

  respond-allowed :
      (req : Request Raw) (s : Progress Q) (message : String)
      → respond m req s ≡ allowed message
      → s.mutated ≡ false
  unfolding respond
  respond-allowed req s message h = elim (Bool-cases s.mutated) [
    | inr kept ↦ kept
    | inl changed ↦ elim (Result-cases (m.marshal s.pod)) [
      | inl (raw, done) ↦ absurd (ground arith)
      | inr (e, failed) ↦ absurd (ground arith)
    ]
  ]

  -- The object that goes on after the mutating webhook: the one of the request, or the patched one.
  abbrev pub Sends : Request Raw → Raw → Type 0
  Sends req object =
      ((message : String) × ((Mutator.handle m req).0 ≡ allowed message)
        × (object ≡ req.object_raw))
      ⊎ ((original : Raw) × ((Mutator.handle m req).0 ≡ patched original object))

  module _ (req : Request Raw) (pod : Pod Q) (policies : List WorkloadPolicy)
      (profiles : List TelemetryProfile) (r : IsRead m req pod policies profiles) where
    response : respond m req (outcome m req pod policies profiles) ≡ (Mutator.handle m req).0
    response = sym (ap (λ (r : Response Raw × List Event). r.0) (handle_of_read m req r))

    -- Once decoded, what goes on is the mutated pod, up to nil maps.
    pub sent-like :
        (reads_back : ReadsBack)
        → All (HasValidQuantities m.parse_quantity) (sort_workload_policies_by_priority m policies)
        → (object : Raw) (pod' : Pod Q) → Sends req object
        → r.decode (record req { object_raw = object }) ≡ ok pod'
        → made_pod (outcome m req pod policies profiles).pod ≡ made_pod pod'
    sent-like reads_back valid object pod' (inl (message, passed, same)) read =
        let same_pod : pod ≡ pod' =
          cc (
            r.decoded,
            read,
            ap (λ (raw : Raw). r.decode (record req { object_raw = raw })) same,
          ) in
        mutate-unmutated_like m.parse_quantity (sort_telemetry_profiles_by_priority m profiles)
          (sort_workload_policies_by_priority m policies) pod valid
          (respond-allowed req (outcome m req pod policies profiles) message (response ∙ passed))
        ∙ ap made_pod same_pod
    sent-like reads_back valid object pod' (inr (original, sent)) read =
        let s = outcome m req pod policies profiles in
        let (_, _, marshalled) = respond-patched m req s original object (response ∙ sent) in
        let (back, reads, like) =
          reads_back r.decode r.injected (record req { object_raw = object }) s.pod marshalled in
        let same_pod : back ≡ pod' = cc (reads, read) in sym like ∙ ap made_pod same_pod

  -- A webhook that sends an object on has read its inputs.
  pub Sends-IsRead :
      (req : Request Raw) (policies : List WorkloadPolicy) (object : Raw)
      → m.list_policies req.namespace ≡ ok policies
      → Sends req object
      → (pod : Pod Q) × (profiles : List TelemetryProfile) × IsRead m req pod policies profiles
  Sends-IsRead req policies object listed sent = elim (handle_cases m req) [
    | inl (pod, policies', profiles, r) ↦
        let same : policies' ≡ policies = cc (listed, r.policies_listed) in
        (pod, profiles, subst (λ ps. IsRead m req pod ps profiles) same r)
    | inr (code, e, failed) ↦
        let first = ap (λ (r : Response Raw × List Event). r.0) failed in
        elim sent [
          | inl (message, passed, _) ↦ absurd (cc (first, passed))
          | inr (original, patch) ↦ absurd (cc (first, patch))
        ]
  ]
