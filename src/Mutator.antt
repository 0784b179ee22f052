-- ===== src/Mutator.antt =====
-- internal/webhook/core/pod_mutating_webhook.go: `Handle`, the mutating webhook for Pods.
pub mod Grows
pub mod Settled
pub mod Priority
pub mod Distinct
pub mod Order
pub mod Handle
pub mod Supplied
pub mod Unmutated
pub mod Filled
pub mod Given
pub mod Valid
pub mod Finished
pub mod Sent
mod Tests
use platform_governance_oper.Prelude.{
  String, ◌<>◌, Bool, true, false, ◌||◌, Option, none, some, List, [], ◌∷◌, ◌++◌, if◌then◌else◌,
  Result, ok, err, ltb_ℤ,
}
use platform_governance_oper.Api.{WorkloadPolicy, TelemetryProfile}
use platform_governance_oper.Kube.{
  Pod, Error, decoder_not_initialized, Request, Response, errored, allowed, patched,
  internal_server_error, bad_request, Event, Progress,
}
use platform_governance_oper.Defaults.{apply_policy_labels, apply_policy_resources}
use platform_governance_oper.Telemetry.{apply_telemetry}

module _ {Q : Type 0} where
  abbrev pub policy_event : Pod Q → WorkloadPolicy → Event
  policy_event pod policy = record {
    about = policy.meta;
    event_type = "Normal";
    reason = "PodMutated";
    message =
        "Applied workload policy defaults to Pod " <> pod.name <> " in namespace " <> pod.namespace;
  }

module _ {Q : Type 0} (parse_quantity : String → Option Q) where
  -- One round of the loop over policies in `Handle`. Where the resources fail, the code goes on
  -- with the next policy (`continue`), and keeps what was written to the pod.
  unfoldable pub policy_round : WorkloadPolicy → Progress Q → Progress Q
  policy_round policy s =
      let (labelled, labels_mutated) = apply_policy_labels s.pod policy in
      let (pod', r) = apply_policy_resources parse_quantity labelled policy in
      elim r [
        | err _ ↦ record s { pod = pod' }
        | ok resources_mutated ↦
            if labels_mutated || resources_mutated
            then record {
              pod = pod';
              mutated = true;
              events = s.events ++ policy_event pod' policy ∷ [];
            }
            else record s { pod = pod' }
      ]

  unfoldable pub apply_policies : List WorkloadPolicy → Progress Q → Progress Q
  apply_policies [] s = s
  apply_policies (policy ∷ policies) s = apply_policies policies (policy_round policy s)

  -- What `Handle` does to the pod, with the policies and the profiles sorted.
  unfoldable pub mutate : List TelemetryProfile → List WorkloadPolicy → Pod Q → Progress Q
  mutate profiles policies pod =
      apply_policies policies
        (apply_telemetry profiles (record { pod = pod; mutated = false; events = [] }))

-- The orders that `sortWorkloadPoliciesByPriority` and `sortTelemetryProfilesByPriority` give to
-- `sort.Slice`.
abbrev pub policy_before : WorkloadPolicy → WorkloadPolicy → Bool
policy_before p q = ltb_ℤ q.spec.priority p.spec.priority

abbrev pub profile_before : TelemetryProfile → TelemetryProfile → Bool
profile_before p q = ltb_ℤ q.spec.priority p.spec.priority

-- `PodMutator` with what it calls: the decoder, nil until it is injected, the client's list calls,
-- `json.Marshal`, `resource.ParseQuantity` and `sort.Slice` at the two element types.
pub record PodMutator (Q Raw : Type 0) : Type 0 where
  pub decoder : Option (Request Raw → Result Error (Pod Q))
  pub list_policies : String → Result Error (List WorkloadPolicy)
  pub list_profiles : String → Result Error (List TelemetryProfile)
  pub marshal : Pod Q → Result Error Raw
  pub parse_quantity : String → Option Q
  pub sort_policies :
      (WorkloadPolicy → WorkloadPolicy → Bool) → List WorkloadPolicy → List WorkloadPolicy
  pub sort_profiles :
      (TelemetryProfile → TelemetryProfile → Bool) → List TelemetryProfile → List TelemetryProfile

module _ {Q Raw : Type 0} where
  pub inject_decoder : (Request Raw → Result Error (Pod Q)) → PodMutator Q Raw → PodMutator Q Raw
  inject_decoder d m = record m { decoder = some d }

  -- `sortWorkloadPoliciesByPriority`, `sortTelemetryProfilesByPriority`
  unfoldable pub sort_workload_policies_by_priority :
      PodMutator Q Raw → List WorkloadPolicy → List WorkloadPolicy
  sort_workload_policies_by_priority m = m.sort_policies policy_before

  unfoldable pub sort_telemetry_profiles_by_priority :
      PodMutator Q Raw → List TelemetryProfile → List TelemetryProfile
  sort_telemetry_profiles_by_priority m = m.sort_profiles profile_before

  -- The end of `Handle`: the response for what was done to the pod.
  unfoldable pub respond : PodMutator Q Raw → Request Raw → Progress Q → Response Raw
  respond m req s =
      if s.mutated
      then elim (m.marshal s.pod) [
        | err e ↦ errored internal_server_error e
        | ok raw ↦ patched req.object_raw raw
      ]
      else allowed "No mutations applied"

  -- `Handle`
  unfoldable pub handle : PodMutator Q Raw → Request Raw → Response Raw × List Event
  handle m req = elim m.decoder [
    | none ↦ (errored internal_server_error decoder_not_initialized, [])
    | some decode ↦ elim (decode req) [
      | err e ↦ (errored bad_request e, [])
      | ok pod ↦ elim (m.list_policies req.namespace) [
        | err e ↦ (errored internal_server_error e, [])
        | ok policies ↦ elim (m.list_profiles req.namespace) [
          | err e ↦ (errored internal_server_error e, [])
          | ok profiles ↦
              let s =
                mutate m.parse_quantity (sort_telemetry_profiles_by_priority m profiles)
                  (sort_workload_policies_by_priority m policies) pod in
              (respond m req s, s.events)
        ]
      ]
    ]
  ]
