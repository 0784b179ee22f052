-- ===== src/Mutator/Handle.antt =====
-- The mutating webhook as a whole: when it patches, and what an invalid quantity does to it.
use platform_governance_oper.Prelude.{
  String, ◌≡◌, sym, ap, ◌∙◌, ◌⊎◌, ℕ, true, Option, some, List, [], arith, inl, inr, Option-cases,
  Result-cases, Result, ok, err, Bool-cases, lookup, first_of,
}
use platform_governance_oper.Api.{WorkloadPolicy, TelemetryProfile}
use platform_governance_oper.Kube.{
  Pod, Error, decoder_not_initialized, Request, Response, errored, patched, bad_request,
  internal_server_error, Event, Progress,
}
use platform_governance_oper.Defaults.{apply_policy_labels, apply_policy_resources}
use platform_governance_oper.Defaults.Labels.{mandatory, label}
use platform_governance_oper.Mutator.{
  policy_round, mutate, PodMutator, sort_workload_policies_by_priority,
  sort_telemetry_profiles_by_priority, respond, handle,
}
use platform_governance_oper.Mutator.Priority.{label-policy_round}

module _ {Q Raw : Type 0} (m : PodMutator Q Raw) (req : Request Raw) where
  -- The request was decoded, and the namespace's policies and profiles were listed.
  pub record IsRead (pod : Pod Q) (policies : List WorkloadPolicy)
      (profiles : List TelemetryProfile) : Type 0 where
    pub decode : Request Raw → Result Error (Pod Q)
    pub injected : m.decoder ≡ some decode
    pub decoded : decode req ≡ ok pod
    pub policies_listed : m.list_policies req.namespace ≡ ok policies
    pub profiles_listed : m.list_profiles req.namespace ≡ ok profiles

  -- What the webhook does to the pod that it read.
  abbrev pub outcome : Pod Q → List WorkloadPolicy → List TelemetryProfile → Progress Q
  outcome pod policies profiles =
      mutate m.parse_quantity (sort_telemetry_profiles_by_priority m profiles)
        (sort_workload_policies_by_priority m policies) pod

  pub handle_of_read :
      {pod : Pod Q} {policies : List WorkloadPolicy} {profiles : List TelemetryProfile}
      → IsRead pod policies profiles
      → handle m req
        ≡ (respond m req (outcome pod policies profiles), (outcome pod policies profiles).events)
  unfolding handle
  handle_of_read r = ground (arith, r.injected, r.decoded, r.policies_listed, r.profiles_listed)

  -- A handler that has read its inputs answers for the mutated pod, any other answers an error.
  pub handle_cases :
      ((pod : Pod Q) × (policies : List WorkloadPolicy) × (profiles : List TelemetryProfile)
        × IsRead pod policies profiles)
      ⊎ ((code : ℕ) × (e : Error) × (handle m req ≡ (errored code e, [])))
  unfolding handle
  handle_cases = elim (Option-cases m.decoder) [
    | inl nil ↦ inr (internal_server_error, decoder_not_initialized, ground arith)
    | inr (decode, injected) ↦ elim (Result-cases (decode req)) [
      | inr (e, failed) ↦ inr (bad_request, e, ground arith)
      | inl (pod, decoded) ↦ elim (Result-cases (m.list_policies req.namespace)) [
        | inr (e, failed) ↦ inr (internal_server_error, e, ground arith)
        | inl (policies, listed) ↦ elim (Result-cases (m.list_profiles req.namespace)) [
          | inr (e, failed) ↦ inr (internal_server_error, e, ground arith)
          | inl (profiles, listed') ↦ inl (
            pod,
            policies,
            profiles,
            record {
              decode = decode;
              injected = injected;
              decoded = decoded;
              policies_listed = listed;
              profiles_listed = listed';
            },
          )
        ]
      ]
    ]
  ]

  pub respond-patched :
      (s : Progress Q) (original current : Raw)
      → respond m req s ≡ patched original current
      → (s.mutated ≡ true) × (original ≡ req.object_raw) × (m.marshal s.pod ≡ ok current)
  unfolding respond
  respond-patched s original current h = elim (Bool-cases s.mutated) [
    | inr kept ↦ absurd (cc (rw kept at h))
    | inl changed ↦ elim (Result-cases (m.marshal s.pod)) [
      | inl (raw, done) ↦ ground arith
      | inr (e, failed) ↦ ground arith
    ]
  ]

  -- A patch is always from the object of the request to the serialised outcome of the pod that was
  -- decoded from it, for the policies and profiles listed in its namespace, and is only sent where
  -- the outcome is reported as mutated.
  pub handle-patched :
      (original current : Raw)
      → (handle m req).0 ≡ patched original current
      → (pod : Pod Q) × (policies : List WorkloadPolicy) × (profiles : List TelemetryProfile)
        × IsRead pod policies profiles
        × ((outcome pod policies profiles).mutated ≡ true)
        × (original ≡ req.object_raw)
        × (m.marshal (outcome pod policies profiles).pod ≡ ok current)
        × ((handle m req).1 ≡ (outcome pod policies profiles).events)
  handle-patched original current h = elim handle_cases [
    | inr (code, e, failed) ↦ absurd (cc (ap (λ (r : Response Raw × List Event). r.0) failed))
    | inl (pod, policies, profiles, r) ↦
        let s = outcome pod policies profiles in
        let e = handle_of_read r in
        let sent = sym (ap (λ (r : Response Raw × List Event). r.0) e) ∙ h in
        let (changed, from, to) = respond-patched s original current sent in
        (
          pod,
          policies,
          profiles,
          r,
          changed,
          from,
          to,
          ap (λ (r : Response Raw × List Event). r.1) e,
        )
  ]

module _ {Q : Type 0} (parse_quantity : String → Option Q) where
  -- Where a policy's resources fail, its round sets no flag and records no event, and the pod has
  -- its mandatory labels all the same.
  pub policy_round-failed :
      (policy : WorkloadPolicy) (s : Progress Q) (e : Error)
      → (apply_policy_resources parse_quantity (apply_policy_labels s.pod policy).0 policy).1
        ≡ err e
      → ((policy_round parse_quantity policy s).mutated ≡ s.mutated)
        × ((policy_round parse_quantity policy s).events ≡ s.events)
        × ((k : String)
            → label k (policy_round parse_quantity policy s).pod
              ≡ first_of (label k s.pod) (lookup k (mandatory policy)))
  unfolding policy_round
  policy_round-failed policy s e failed =
      (ground arith, ground arith, λ k. label-policy_round parse_quantity k policy s)
