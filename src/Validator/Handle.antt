-- ===== src/Validator/Handle.antt =====
-- The validating webhook as a whole: what a response tells of the request.
use mathlib.Core.Option
use mathlib.Core.List.{Permᴰ}
use platform_governance_oper.Prelude.{
  String, ◌≡◌, refl, ◌↔◌, ◌⊎◌, inl, inr, false, some, List, [], ◌∷◌, map, All-perm, arith, ℕ,
  Option-cases, Result, ok, Result-cases, ap,
}
use platform_governance_oper.Api.{SecurityBaseline, SecurityBaselineSpec}
use platform_governance_oper.Kube.{
  SecurityContext, Container, Pod, Error, Request, Response, errored, denied, allowed, Event,
  internal_server_error, bad_request, decoder_not_initialized,
}
use platform_governance_oper.Validator.{
  some_writable, violation, check_baselines, PodValidator, handle, has_writable_root,
}
use platform_governance_oper.Validator.Verdict.{
  CompliesWithAll, check_baselines-allowed_iff, check_baselines-denied, IsDenial,
}

module _ {Q Raw : Type 0} (v : PodValidator Q Raw) (req : Request Raw) where
  -- The request was decoded and its namespace's baselines were listed.
  pub record IsRead (pod : Pod Q) (bs : List SecurityBaseline) : Type 0 where
    pub decode : Request Raw → Result Error (Pod Q)
    pub injected : v.decoder ≡ some decode
    pub decoded : decode req ≡ ok pod
    pub listed : v.list_baselines req.namespace ≡ ok bs

  pub handle_of_read :
      {pod : Pod Q} {bs : List SecurityBaseline}
      → IsRead pod bs
      → handle v req ≡ check_baselines pod req.namespace bs
  unfolding handle
  handle_of_read r = ground (arith, r.injected, r.decoded, r.listed)

  -- A handler that has read its inputs answers by the loop, and any other answers an error.
  handle_cases :
      ((pod : Pod Q) × (bs : List SecurityBaseline) × IsRead pod bs
        × (handle v req ≡ check_baselines pod req.namespace bs))
      ⊎ ((code : ℕ) × (e : Error) × (handle v req ≡ (errored code e, [])))
  unfolding handle
  handle_cases = elim (Option-cases v.decoder) [
    | inl nil ↦ inr (internal_server_error, decoder_not_initialized, rw (nil, handle))
    | inr (decode, injected) ↦ elim (Result-cases (decode req)) [
      | inr (e, failed) ↦ inr (bad_request, e, ground arith)
      | inl (pod, decoded) ↦ elim (Result-cases (v.list_baselines req.namespace)) [
        | inr (e, failed) ↦ inr (internal_server_error, e, ground arith)
        | inl (bs, listed) ↦ inl (
          pod,
          bs,
          record { decode = decode; injected = injected; decoded = decoded; listed = listed },
          handle_of_read
              (record { decode = decode; injected = injected; decoded = decoded; listed = listed }),
        )
      ]
    ]
  ]

  -- A request is admitted exactly when the pod was decoded, the baselines of its namespace were
  -- listed, and the pod complies with each of them that does not exclude the namespace.
  pub handle-allowed_iff : ((handle v req).0 ≡ allowed "") ↔ (
      (pod : Pod Q) × (bs : List SecurityBaseline) × IsRead pod bs
      × CompliesWithAll pod req.namespace bs)
  handle-allowed_iff = (to handle_cases, from)
    where
      to :
          ((pod : Pod Q) × (bs : List SecurityBaseline) × IsRead pod bs
              × (handle v req ≡ check_baselines pod req.namespace bs))
            ⊎ ((code : ℕ) × (e : Error) × (handle v req ≡ (errored code e, [])))
          → (handle v req).0 ≡ allowed ""
          → (pod : Pod Q) × (bs : List SecurityBaseline) × IsRead pod bs
            × CompliesWithAll pod req.namespace bs
      to (inl (pod, bs, reads, same)) h =
          (pod, bs, reads, (check_baselines-allowed_iff pod req.namespace bs).0 (rw same at h))
      to (inr (code, e, same)) h = absurd (cc (ap (λ (r : Response Raw × List Event). r.0) same))

      from :
          ((pod : Pod Q) × (bs : List SecurityBaseline) × IsRead pod bs
            × CompliesWithAll pod req.namespace bs)
          → (handle v req).0 ≡ allowed ""
      from (pod, bs, r, c) =
          rw (handle_of_read r) ((check_baselines-allowed_iff pod req.namespace bs).1 c)

  -- A denial always comes from a baseline in force that the decoded pod violates: the first such
  -- one gives the message, and its event is the only one recorded.
  pub handle-denied :
      (msg : String)
      → (handle v req).0 ≡ denied msg
      → (pod : Pod Q) × (bs : List SecurityBaseline) × IsRead pod bs
        × IsDenial pod req.namespace bs msg (handle v req).1
  handle-denied msg h = elim handle_cases [
    | inl (pod, bs, reads, same) ↦
        (pod, bs, reads, rw same (check_baselines-denied pod req.namespace bs msg (rw same at h)))
    | inr (code, e, same) ↦ absurd (cc (ap (λ (r : Response Raw × List Event). r.0) same))
  ]

module _ {Q : Type 0} where
  -- The container asks for root, whatever the pod says.
  abbrev pub as_root : Container Q → Container Q
  as_root c = record c {
    security_context =
        Option.map (λ (sc : SecurityContext). record sc { run_as_non_root = some false })
          c.security_context;
  }

  some_writable-as_root :
      (cs : List (Container Q)) → some_writable (map as_root cs) ≡ some_writable cs
  unfolding some_writable has_writable_root
  some_writable-as_root [] = refl
  some_writable-as_root (c ∷ cs) = ground (arith, some_writable-as_root cs)

  abbrev pub all_as_root : Pod Q → Pod Q
  all_as_root pod = record pod {
    containers = map as_root pod.containers;
    init_containers = map as_root pod.init_containers;
  }

  violation-all_as_root :
      (pod : Pod Q) (spec : SecurityBaselineSpec)
      → violation (all_as_root pod) spec ≡ violation pod spec
  unfolding violation
  violation-all_as_root pod spec =
      rw (some_writable-as_root pod.containers, some_writable-as_root pod.init_containers)

module _ {Q Raw : Type 0} (namespace : String) where
  -- Whether a pod is admitted does not depend on the order in which the baselines are listed.
  check_baselines-perm :
      (pod : Pod Q) (bs cs : List SecurityBaseline)
      → Permᴰ bs cs
      → (check_baselines {Raw = Raw} pod namespace bs).0 ≡ allowed ""
      → (check_baselines {Raw = Raw} pod namespace cs).0 ≡ allowed ""
  check_baselines-perm pod bs cs p h =
      (check_baselines-allowed_iff pod namespace cs).1
        (All-perm _ p ((check_baselines-allowed_iff pod namespace bs).0 h))

  -- A container's own `runAsNonRoot: false`, which overrides the pod's, changes no verdict.
  pub check_baselines-all_as_root :
      (pod : Pod Q) (bs : List SecurityBaseline)
      → check_baselines {Raw = Raw} (all_as_root pod) namespace bs
        ≡ check_baselines {Raw = Raw} pod namespace bs
  unfolding check_baselines
  check_baselines-all_as_root pod [] = refl
  check_baselines-all_as_root pod (b ∷ bs) =
      ground (arith, violation-all_as_root pod b.spec, check_baselines-all_as_root pod bs)
