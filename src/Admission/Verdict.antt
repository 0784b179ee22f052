-- ===== src/Admission/Verdict.antt =====
-- The mutating webhook and then the validating one.
use platform_governance_oper.Prelude.{
  String, ◌≡◌, refl, sym, ap, ◌∙◌, some, Option, List, [], ◌∷◌, map, arith, Result, ok,
  Result-cases, inl, inr,
}
use platform_governance_oper.Api.{
  SecurityBaseline, SecurityBaselineSpec, WorkloadPolicy, TelemetryProfile,
}
use platform_governance_oper.Kube.{Container, Pod, Error, Request, patched}
use platform_governance_oper.Validator.{
  PodValidator, some_writable, has_writable_root, violation, may_run_as_root, check_baselines,
}
use platform_governance_oper.Validator
use platform_governance_oper.Mutator.{PodMutator, mutate}
use platform_governance_oper.Mutator
use platform_governance_oper.Mutator.Handle.{handle-patched, outcome}
use platform_governance_oper.Admission.Bare.{bare, bare_pod, mutate-bare_pod}

module _ {Q : Type 0} where
  some_writable-bare : (cs : List (Container Q)) → some_writable (map bare cs) ≡ some_writable cs
  unfolding some_writable has_writable_root
  some_writable-bare [] = refl
  some_writable-bare (c ∷ cs) = ground (arith, some_writable-bare cs)

  abbrev with_bare_init : Pod Q → Pod Q
  with_bare_init pod = record pod { init_containers = map bare pod.init_containers }

  -- A pod without its labels and the environments and resources of all its containers.
  abbrev pub bared : Pod Q → Pod Q
  bared pod = with_bare_init (bare_pod pod)

  violation-bared :
      (pod : Pod Q) (spec : SecurityBaselineSpec) → violation (bared pod) spec ≡ violation pod spec
  unfolding violation
  violation-bared pod spec =
      rw (some_writable-bare pod.containers, some_writable-bare pod.init_containers) refl

module _ {Q Raw : Type 0} (namespace : String) where
  check_baselines-bared :
      (pod : Pod Q) (bs : List SecurityBaseline)
      → check_baselines {Raw = Raw} (bared pod) namespace bs
        ≡ check_baselines {Raw = Raw} pod namespace bs
  unfolding check_baselines
  check_baselines-bared pod [] = refl
  check_baselines-bared pod (b ∷ bs) =
      ground (arith, violation-bared pod b.spec, check_baselines-bared pod bs)

  check_baselines-alike :
      (pod pod' : Pod Q)
      → bared pod ≡ bared pod'
      → (bs : List SecurityBaseline)
      → check_baselines {Raw = Raw} pod namespace bs ≡ check_baselines {Raw = Raw} pod' namespace bs
  check_baselines-alike pod pod' like bs =
      sym (check_baselines-bared pod bs)
      ∙ ap (λ p. check_baselines p namespace bs) like
      ∙ check_baselines-bared pod' bs

  -- The validating webhook judges a pod and what the mutating webhook makes of it alike, with the
  -- same message and event.
  pub check_baselines-mutate :
      (parse_quantity : String → Option Q) (profiles : List TelemetryProfile)
      (policies : List WorkloadPolicy) (pod : Pod Q) (bs : List SecurityBaseline)
      → check_baselines {Raw = Raw} (mutate parse_quantity profiles policies pod).pod namespace bs
        ≡ check_baselines {Raw = Raw} pod namespace bs
  check_baselines-mutate parse_quantity profiles policies pod bs =
      check_baselines-alike (mutate parse_quantity profiles policies pod).pod pod
        (ap with_bare_init (mutate-bare_pod parse_quantity profiles policies pod)) bs

module _ {Q Raw : Type 0} (m : PodMutator Q Raw) (v : PodValidator Q Raw) where
  -- Both webhooks have the same decoder, which reads back what `json.Marshal` wrote, up to labels,
  -- environments and resources, since an empty map may come back as nil.
  pub record IsCodec : Type 0 where
    pub same : v.decoder ≡ m.decoder
    pub reads_back :
        (decode : Request Raw → Result Error (Pod Q))
        → m.decoder ≡ some decode
        → (req : Request Raw) (pod : Pod Q) → m.marshal pod ≡ ok req.object_raw
        → (read : Pod Q) × (decode req ≡ ok read) × (bared read ≡ bared pod)

  -- A pod that the mutating webhook patched is answered by the validating webhook as the pod that
  -- was sent would have been, events included, if the two have one decoder that reads back what was
  -- marshalled, up to labels, environments and resources.
  pub handle-after_patch :
      (codec : IsCodec) (req : Request Raw) (original current : Raw)
      → (Mutator.handle m req).0 ≡ patched original current
      → Validator.handle v (record req { object_raw = current }) ≡ Validator.handle v req
  unfolding Validator.handle
  handle-after_patch codec req original current h =
      let (pod, policies, profiles, r, _, _, marshalled, _) =
        handle-patched m req original current h in
      let req' : Request Raw = record req { object_raw = current } in
      let end = (outcome m req pod policies profiles).pod in
      let (read, back, like) = codec.reads_back r.decode r.injected req' end marshalled in
      let injected : v.decoder ≡ some r.decode = codec.same ∙ r.injected in
      elim (Result-cases (v.list_baselines req.namespace)) [
        | inr (e, bad) ↦ ground (arith, injected, back, r.decoded, bad)
        | inl (bs, listed) ↦ ground (
          arith,
          injected,
          back,
          r.decoded,
          listed,
          check_baselines-alike {Raw = Raw} req.namespace read end like bs,
          check_baselines-mutate {Raw = Raw} req.namespace m.parse_quantity
              (Mutator.sort_telemetry_profiles_by_priority m profiles)
              (Mutator.sort_workload_policies_by_priority m policies) pod bs,
        )
      ]
