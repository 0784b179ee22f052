-- ===== src/Scheme/Known.antt =====
-- Every kind of the operator's own that the set-up names is known to the scheme.
use platform_governance_oper.Prelude.{
  String, ◌==◌, ◌≡◌, ap, ◌∙◌, subst, Bool-cases, some, List, [], ◌∷◌, ◌++◌, arith, All, inl, inr,
  ok, Result-cases,
}
use platform_governance_oper.Setup.{
  Registration, controller, resource_webhook, pod_webhook, healthz_check, readyz_check, Manager,
}
use platform_governance_oper.Operator.Started.{all_parts}
use platform_governance_oper.Scheme.{
  GroupVersion, group_version, Library, register_security_baseline, register_telemetry_profile,
  register_workload_policy, scheme_builder, add_to_scheme, init,
}

module _ {Scheme Builder : Type 0} (lib : Library Scheme Builder)
    (Knows : Scheme → GroupVersion → String → Type 0) where
  -- A builder has a group version and the kinds registered with it, and makes a scheme know these
  -- kinds in this version.
  pub record IsLibrary : Type 0 where
    pub version : Builder → GroupVersion
    pub kinds : Builder → List String
    pub new_version : (v : GroupVersion) → version (lib.new_builder v) ≡ v
    pub new_kinds : (v : GroupVersion) → kinds (lib.new_builder v) ≡ []
    pub register_version :
        (ks : List String) (b : Builder) → version (lib.register ks b) ≡ version b
    pub register_kinds :
        (ks : List String) (b : Builder) → kinds (lib.register ks b) ≡ kinds b ++ ks
    pub added :
        (b : Builder) (s s' : Scheme)
        → lib.add_builder_to_scheme b s ≡ ok s'
        → All (Knows s' (version b)) (kinds b)

  -- The scheme knows the operator's own kind that the registration names, if it names one.
  abbrev pub KnowsKind : {Q Raw : Type 0} → Scheme → Registration Q Raw → Type 0
  KnowsKind s (controller kind watches name) = Knows s group_version kind
  KnowsKind s (resource_webhook kind) = Knows s group_version kind
  KnowsKind s (pod_webhook path handler) = Unit
  KnowsKind s (healthz_check name) = Unit
  KnowsKind s (readyz_check name) = Unit

  module _ (laws : IsLibrary) where
    scheme_builder-version : laws.version (scheme_builder lib) ≡ group_version
    unfolding scheme_builder register_security_baseline register_telemetry_profile
        register_workload_policy
    scheme_builder-version =
        laws.register_version _ _
        ∙ laws.register_version _ _
        ∙ laws.register_version _ _
        ∙ laws.new_version group_version

    scheme_builder-kinds :
        laws.kinds (scheme_builder lib)
        ≡ "SecurityBaseline" ∷ "SecurityBaselineList" ∷ "TelemetryProfile" ∷ "TelemetryProfileList"
          ∷ "WorkloadPolicy" ∷ "WorkloadPolicyList" ∷ []
    unfolding scheme_builder register_security_baseline register_telemetry_profile
        register_workload_policy
    scheme_builder-kinds =
        laws.register_kinds _ _
        ∙ ap (λ ks. ks ++ "WorkloadPolicy" ∷ "WorkloadPolicyList" ∷ [])
            (laws.register_kinds _ _
              ∙ ap (λ ks. ks ++ "TelemetryProfile" ∷ "TelemetryProfileList" ∷ [])
                  (laws.register_kinds _ _
                    ∙ ap (λ ks. ks ++ "SecurityBaseline" ∷ "SecurityBaselineList" ∷ [])
                        (laws.new_kinds group_version)))

    init-kinds :
        (s : Scheme)
        → init lib ≡ some s
        → All (Knows s group_version) (
            "SecurityBaseline" ∷ "SecurityBaselineList" ∷ "TelemetryProfile"
            ∷ "TelemetryProfileList" ∷ "WorkloadPolicy" ∷ "WorkloadPolicyList" ∷ [])
    unfolding init add_to_scheme
    init-kinds s h = elim (Result-cases (lib.add_client_go_to_scheme lib.new_scheme)) [
      | inr (e, bad) ↦ absurd (ground (arith, bad, h))
      | inl (s1, fine) ↦ elim (Result-cases (lib.add_builder_to_scheme (scheme_builder lib) s1)) [
        | inr (e, bad) ↦ absurd (ground (arith, fine, bad, h))
        | inl (s2, done) ↦
            let here : s2 ≡ s = ground (arith, fine, done, h) in
            let known = laws.added (scheme_builder lib) s1 s (done ∙ ap ok here) in
            subst (All (Knows s group_version)) scheme_builder-kinds (
              subst (λ v. All (Knows s v) (laws.kinds (scheme_builder lib))) scheme_builder-version
                known)
      ]
    ]

    -- If `init` does not panic, the scheme knows every kind of the operator's own that a controller
    -- or a webhook of the set-up is registered for, and the kinds of the lists that they read.
    pub init-KnowsKind :
        {Q Raw : Type 0} (mgr : Manager Q Raw) (enable_webhooks : String) (s : Scheme)
        → init lib ≡ some s
        → All (KnowsKind s) (all_parts mgr enable_webhooks)
          × All
              (Knows s group_version)
              ("SecurityBaselineList" ∷ "TelemetryProfileList" ∷ "WorkloadPolicyList" ∷ [])
    init-KnowsKind mgr enable_webhooks s h =
        let (sb, (sbl, (tp, (tpl, (wp, (wpl, _)))))) = init-kinds s h in
        (
          elim (Bool-cases (enable_webhooks == "false")) [
            | inl off ↦ rw off (sb, (wp, (tp, (tt, (tt, tt)))))
            | inr on ↦ rw on (sb, (wp, (tp, (sb, (wp, (tp, (tt, (tt, (tt, (tt, tt))))))))))
          ],
          (sbl, (tpl, (wpl, tt))),
        )
