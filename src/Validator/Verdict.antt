-- ===== src/Validator/Verdict.antt =====
-- What the validating webhook admits, and what it records.
use platform_governance_oper.Prelude.{
  String, ◌≡◌, refl, ◌↔◌, ◌⊎◌, inl, inr, true, false, Option, none, some, List, [], ◌∷◌, ◌++◌, ap,
  ◌∙◌, All, arith, Bool-cases, Option-cases, contains,
}
use platform_governance_oper.Api.{SecurityBaseline, SecurityBaselineSpec}
use platform_governance_oper.Kube.{
  SecurityContext, PodSecurityContext, Container, Pod, Response, denied, allowed, Event,
}
use platform_governance_oper.Validator.{
  may_run_as_root, has_writable_root, some_writable, violation, check_baselines, denial_event,
}

module _ {Q : Type 0} where
  -- The container sets a read-only root filesystem.
  abbrev pub IsReadOnly : Container Q → Type 0
  IsReadOnly c =
      (sc : SecurityContext) × (c.security_context ≡ some sc)
      × (sc.read_only_root_filesystem ≡ some true)

  -- The pod says, for the whole pod, that it runs as non-root.
  abbrev pub IsNonRoot : Pod Q → Type 0
  IsNonRoot pod =
      (sc : PodSecurityContext) × (pod.security_context ≡ some sc)
      × (sc.run_as_non_root ≡ some true)

  -- What one baseline asks of a pod.
  abbrev pub Complies : Pod Q → SecurityBaselineSpec → Type 0
  Complies pod spec =
      (spec.run_as_non_root ≡ true → IsNonRoot pod)
      × (spec.read_only_root_filesystem ≡ true
          → All IsReadOnly pod.containers × All IsReadOnly pod.init_containers)

  -- What a namespace's baselines ask, except those that exclude the namespace.
  abbrev pub CompliesWithAll : Pod Q → String → List SecurityBaseline → Type 0
  CompliesWithAll pod namespace =
      All λ b. contains b.spec.excluded_namespaces namespace ≡ false → Complies pod b.spec

  has_writable_root_iff :
      (c : Container Q) → (has_writable_root c.security_context ≡ false) ↔ IsReadOnly c
  unfolding has_writable_root
  has_writable_root_iff c = (λ h. from_test c.security_context refl h, λ (sc, e, h). ground arith)
    where
      from_test :
          (o : Option SecurityContext)
          → c.security_context ≡ o
          → has_writable_root o ≡ false
          → IsReadOnly c
      from_test none e h = cc
      from_test (some sc) e h = (sc, e, ground arith)

  may_run_as_root_iff :
      (pod : Pod Q) → (may_run_as_root pod.security_context ≡ false) ↔ IsNonRoot pod
  unfolding may_run_as_root
  may_run_as_root_iff pod = (λ h. from_test pod.security_context refl h, λ (sc, e, h). ground arith)
    where
      from_test :
          (o : Option PodSecurityContext)
          → pod.security_context ≡ o
          → may_run_as_root o ≡ false
          → IsNonRoot pod
      from_test none e h = cc
      from_test (some sc) e h = (sc, e, ground arith)

  some_writable_iff : (cs : List (Container Q)) → (some_writable cs ≡ false) ↔ All IsReadOnly cs
  unfolding some_writable
  some_writable_iff [] = (λ h. tt, λ h. refl)
  some_writable_iff (c ∷ cs) = (
    λ h. ((has_writable_root_iff c).0 (ground arith), (some_writable_iff cs).0 (ground arith)),
    λ (h, hs). ground (arith, (has_writable_root_iff c).1 h, (some_writable_iff cs).1 hs),
  )

  -- A pod has no violation of a baseline exactly when it complies with it.
  violation_iff :
      (pod : Pod Q) (spec : SecurityBaselineSpec) → (violation pod spec ≡ none) ↔ Complies pod spec
  unfolding violation
  violation_iff pod spec = (
    λ h. (
      λ on. (may_run_as_root_iff pod).0 (ground arith),
      λ on. (
        (some_writable_iff pod.containers).0 (ground arith),
        (some_writable_iff pod.init_containers).0 (ground arith),
      ),
    ),
    λ (root, disk).
        from_parts root disk (Bool-cases spec.run_as_non_root)
          (Bool-cases spec.read_only_root_filesystem),
  )
    where
      from_parts :
          (spec.run_as_non_root ≡ true → IsNonRoot pod)
          → (spec.read_only_root_filesystem ≡ true
              → All IsReadOnly pod.containers × All IsReadOnly pod.init_containers)
          → (spec.run_as_non_root ≡ true) ⊎ (spec.run_as_non_root ≡ false)
          → (spec.read_only_root_filesystem ≡ true) ⊎ (spec.read_only_root_filesystem ≡ false)
          → violation pod spec ≡ none
      from_parts root disk (inl a) (inl b) = ground (
        arith,
        (may_run_as_root_iff pod).1 (root a),
        (some_writable_iff pod.containers).1 (disk b).0,
        (some_writable_iff pod.init_containers).1 (disk b).1,
      )
      from_parts root disk (inl a) (inr b) = ground (arith, (may_run_as_root_iff pod).1 (root a))
      from_parts root disk (inr a) (inl b) = ground (
        arith,
        (some_writable_iff pod.containers).1 (disk b).0,
        (some_writable_iff pod.init_containers).1 (disk b).1,
      )
      from_parts root disk (inr a) (inr b) = ground arith

  -- What a denial by the loop means: the first baseline in force that the pod violates gives the
  -- message and the one event.
  abbrev pub IsDenial : Pod Q → String → List SecurityBaseline → String → List Event → Type 0
  IsDenial pod namespace bs msg events =
      (before : List SecurityBaseline) × (b : SecurityBaseline) × (after : List SecurityBaseline)
      × (bs ≡ before ++ b ∷ after)
      × CompliesWithAll pod namespace before
      × (contains b.spec.excluded_namespaces namespace ≡ false)
      × (violation pod b.spec ≡ some msg)
      × (events ≡ denial_event pod b msg ∷ [])

  -- A baseline that the pod passes is skipped.
  IsDenial-cons :
      (pod : Pod Q) (namespace : String) (b : SecurityBaseline) (bs : List SecurityBaseline)
      (msg : String) (events : List Event)
      → (contains b.spec.excluded_namespaces namespace ≡ false → Complies pod b.spec)
      → IsDenial pod namespace bs msg events
      → IsDenial pod namespace (b ∷ bs) msg events
  IsDenial-cons pod namespace b bs msg events fine (before, d, after, split, hs, on, bad, e) =
      (b ∷ before, d, after, ap (◌∷◌ b) split, (fine, hs), on, bad, e)

module _ {Q Raw : Type 0} (pod : Pod Q) (namespace : String) where
  abbrev checked : List SecurityBaseline → Response Raw × List Event
  checked = check_baselines pod namespace

  -- One round of the loop: it goes on where the baseline is met or excludes the namespace.
  checked-cons_cases :
      (b : SecurityBaseline) (bs : List SecurityBaseline)
      → ((contains b.spec.excluded_namespaces namespace ≡ false → Complies pod b.spec)
          × (checked (b ∷ bs) ≡ checked bs))
        ⊎ ((msg : String) × (contains b.spec.excluded_namespaces namespace ≡ false)
            × (violation pod b.spec ≡ some msg)
            × (checked (b ∷ bs) ≡ (denied msg, denial_event pod b msg ∷ [])))
  unfolding check_baselines
  checked-cons_cases b bs = elim (Bool-cases (contains b.spec.excluded_namespaces namespace)) [
    | inl out ↦ inl (λ e. cc, rw out)
    | inr in_force ↦ elim (Option-cases (violation pod b.spec)) [
      | inl fine ↦
          inl (λ e. (violation_iff pod b.spec).0 fine, rw in_force (rw (fine, check_baselines)))
      | inr (msg, bad) ↦ inr (msg, in_force, bad, rw in_force (rw (bad, check_baselines)))
    ]
  ]

  -- The loop admits, with an empty message, exactly the pods that comply with every baseline
  -- that does not exclude the namespace.
  pub check_baselines-allowed_iff :
      (bs : List SecurityBaseline)
      → ((check_baselines {Raw = Raw} pod namespace bs).0 ≡ allowed "")
        ↔ CompliesWithAll pod namespace bs
  unfolding check_baselines
  check_baselines-allowed_iff [] = (λ h. tt, λ h. refl)
  check_baselines-allowed_iff (b ∷ bs) = elim (checked-cons_cases b bs) [
    | inl (fine, same) ↦
        let (to, from) = check_baselines-allowed_iff bs in
        (λ h. (fine, to (rw same at h)), λ h. rw same (from h.1))
    | inr (msg, in_force, bad, now) ↦ (
      λ h. absurd (cc (ap (λ (r : Response Raw × List Event). r.0) now)),
      λ h. absurd (cc (bad, (violation_iff pod b.spec).1 (h.0 in_force))),
    )
  ]

  pub check_baselines-denied :
      (bs : List SecurityBaseline) (msg : String)
      → (check_baselines {Raw = Raw} pod namespace bs).0 ≡ denied msg
      → IsDenial pod namespace bs msg (check_baselines {Raw = Raw} pod namespace bs).1
  unfolding check_baselines
  check_baselines-denied [] msg h = cc
  check_baselines-denied (b ∷ bs) msg h = elim (checked-cons_cases b bs) [
    | inl (fine, same) ↦
        rw same (
          IsDenial-cons pod namespace b bs msg _ fine
            (check_baselines-denied bs msg (rw same at h)))
    | inr (found, in_force, bad, now) ↦
        let same : found ≡ msg = cc (ap (λ (r : Response Raw × List Event). r.0) now) in
        (
          [],
          b,
          bs,
          refl,
          tt,
          in_force,
          rw (← same) bad,
          ap (λ (r : Response Raw × List Event). r.1) now
              ∙ ap (λ (m : String). denial_event pod b m ∷ []) same,
        )
  ]
