-- ===== src/Validator.antt =====
-- internal/webhook/core/pod_webhook.go: the validating webhook for Pods.
pub mod Verdict
pub mod Handle
mod Tests
use platform_governance_oper.Prelude.{
  String, ◌<>◌, Bool, true, false, not, ◌&&◌, Option, none, some, List, [], ◌∷◌, if◌then◌else◌,
  Result, ok, err, contains,
}
use platform_governance_oper.Api.{SecurityBaseline, SecurityBaselineSpec}
use platform_governance_oper.Kube.{
  SecurityContext, PodSecurityContext, Container, Pod, Error, decoder_not_initialized, Request,
  Response, errored, denied, allowed, internal_server_error, bad_request, Event,
}

abbrev pub must_run_as_non_root : String
must_run_as_non_root = "Pod violates SecurityBaseline: must run as non-root"

abbrev pub containers_must_be_read_only : String
containers_must_be_read_only =
    "Pod violates SecurityBaseline: all containers must have read-only root filesystem"

abbrev pub init_containers_must_be_read_only : String
init_containers_must_be_read_only =
    "Pod violates SecurityBaseline: all init containers must have read-only root filesystem"

-- `p == nil || !*p`
abbrev nil_or_false : Option Bool → Bool
nil_or_false none = true
nil_or_false (some b) = not b

unfoldable pub may_run_as_root : Option PodSecurityContext → Bool
may_run_as_root none = true
may_run_as_root (some sc) = nil_or_false sc.run_as_non_root

unfoldable pub has_writable_root : Option SecurityContext → Bool
has_writable_root none = true
has_writable_root (some sc) = nil_or_false sc.read_only_root_filesystem

module _ {Q : Type 0} where
  -- The two loops over containers: whether one of them is refused.
  unfoldable pub some_writable : List (Container Q) → Bool
  some_writable [] = false
  some_writable (c ∷ cs) =
      let rest = some_writable cs in if has_writable_root c.security_context then true else rest

  -- The body of the loop over baselines, past the namespace test: the message of a denial.
  unfoldable pub violation : Pod Q → SecurityBaselineSpec → Option String
  unfolding may_run_as_root has_writable_root some_writable
  violation pod spec =
      if spec.run_as_non_root && may_run_as_root pod.security_context
      then some must_run_as_non_root
      else if spec.read_only_root_filesystem && some_writable pod.containers
      then some containers_must_be_read_only
      else if spec.read_only_root_filesystem && some_writable pod.init_containers
      then some init_containers_must_be_read_only
      else none

  abbrev pub denial_event : Pod Q → SecurityBaseline → String → Event
  denial_event pod baseline msg = record {
    about = baseline.meta;
    event_type = "Warning";
    reason = "PodDenied";
    message = "Denied Pod " <> pod.name <> " in namespace " <> pod.namespace <> ": " <> msg;
  }

  -- The loop over the baselines, with the events that it records.
  unfoldable pub check_baselines :
      {Raw : Type 0} → Pod Q → String → List SecurityBaseline → Response Raw × List Event
  check_baselines pod namespace [] = (allowed "", [])
  check_baselines pod namespace (b ∷ bs) =
      let rest = check_baselines pod namespace bs in
      if contains b.spec.excluded_namespaces namespace then rest else elim (violation pod b.spec) [
        | none ↦ rest
        | some msg ↦ (denied msg, denial_event pod b msg ∷ [])
      ]

-- `PodValidator`: its decoder, nil until it is injected, and its client's list call.
pub record PodValidator (Q Raw : Type 0) : Type 0 where
  pub decoder : Option (Request Raw → Result Error (Pod Q))
  pub list_baselines : String → Result Error (List SecurityBaseline)

module _ {Q Raw : Type 0} where
  pub inject_decoder :
      (Request Raw → Result Error (Pod Q)) → PodValidator Q Raw → PodValidator Q Raw
  inject_decoder d v = record v { decoder = some d }

  -- `Handle`
  unfoldable pub handle : PodValidator Q Raw → Request Raw → Response Raw × List Event
  handle v req = elim v.decoder [
    | none ↦ (errored internal_server_error decoder_not_initialized, [])
    | some decode ↦ elim (decode req) [
      | err e ↦ (errored bad_request e, [])
      | ok pod ↦ elim (v.list_baselines req.namespace) [
        | err e ↦ (errored internal_server_error e, [])
        | ok baselines ↦ check_baselines pod req.namespace baselines
      ]
    ]
  ]
