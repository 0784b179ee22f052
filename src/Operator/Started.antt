-- ===== src/Operator/Started.antt =====
-- cmd/main.go: what the manager is started with, and when the process ends with 0.
use mathlib.Core.List.{append_assoc, append-nil}
use platform_governance_oper.Prelude.{
  String, ◌==◌, ◌≡◌, ◌↔◌, ◌⊎◌, refl, sym, ap, ◌∙◌, subst, Option, some, none, List, [], ◌∷◌, ◌++◌,
  arith, Bool-cases, Option-cases, Result-cases, ok, err, inl, inr, if◌then◌else◌,
}
use platform_governance_oper.Kube.{Error}
use platform_governance_oper.Setup.{
  Registration, controller, resource_webhook, pod_webhook, healthz_check, readyz_check, validating,
  mutating, Manager, Registered, pod_validator, pod_mutator, setup_security_baseline_reconciler,
  setup_workload_policy_reconciler, setup_telemetry_profile_reconciler,
  setup_security_baseline_webhook, setup_workload_policy_webhook, setup_telemetry_profile_webhook,
  setup_pod_webhook, setup_pod_mutator_webhook,
}
use platform_governance_oper.Operator.{Flags, manager_options, Runtime, setup_webhooks, setup, main}

module _ {Q Raw : Type 0} (mgr : Manager Q Raw) where
  abbrev controllers : List (Registration Q Raw)
  controllers =
      controller "SecurityBaseline" [] "securitybaseline"
      ∷ controller "WorkloadPolicy" ("Deployment" ∷ []) "workloadpolicy"
      ∷ controller "TelemetryProfile" [] "telemetryprofile"
      ∷ []

  abbrev webhooks : List (Registration Q Raw)
  webhooks =
      resource_webhook "SecurityBaseline"
      ∷ resource_webhook "WorkloadPolicy"
      ∷ resource_webhook "TelemetryProfile"
      ∷ pod_webhook "/validate-core-v1-pod" (validating (pod_validator mgr))
      ∷ pod_webhook "/mutate-core-v1-pod" (mutating (pod_mutator mgr))
      ∷ []

  abbrev checks : List (Registration Q Raw)
  checks = healthz_check "healthz" ∷ readyz_check "readyz" ∷ []

  -- All that the operator registers, in order.
  abbrev pub all_parts : (enable_webhooks : String) → List (Registration Q Raw)
  all_parts enable_webhooks =
      if enable_webhooks == "false"
      then controllers ++ checks
      else controllers ++ webhooks ++ checks

  -- Whether a registration can fail and does.
  abbrev refused : List (Registration Q Raw) → Registration Q Raw → Option Error
  refused done (pod_webhook path handler) = none
  refused done r = mgr.refuses done r

  -- The manager takes each of the registrations after those before it.
  abbrev pub TakesAll : List (Registration Q Raw) → List (Registration Q Raw) → Type 0
  TakesAll done [] = Unit
  TakesAll done (r ∷ rs) = (refused done r ≡ none) × TakesAll (done ++ r ∷ []) rs

  -- One registration after the other, until one is refused.
  register_all : List (Registration Q Raw) → List (Registration Q Raw) → Registered mgr
  register_all done [] = ok done
  register_all done (r ∷ rs) = elim (refused done r) [
    | some e ↦ err e
    | none ↦ register_all (done ++ r ∷ []) rs
  ]

  register_all_iff :
      (done rs res : List (Registration Q Raw))
      → (register_all done rs ≡ ok res) ↔ (TakesAll done rs × (res ≡ done ++ rs))
  unfolding register_all
  register_all_iff done [] res =
      ((λ e. (tt, (cc (e)) ∙ sym (append-nil done))), (λ (_, e). ap ok (sym (e ∙ append-nil done))))
  register_all_iff done (r ∷ rs) res = elim (Option-cases (refused done r)) [
    | inr (e, bad) ↦
        ((λ h. absurd (ground (arith, bad, h))), λ (here, _). absurd (cc (here.0, bad)))
    | inl fine ↦
        let rest = register_all_iff (done ++ r ∷ []) rs res in
        let step : register_all done (r ∷ rs) ≡ register_all (done ++ r ∷ []) rs =
          ground (arith, fine) in
        (
          (λ h.
              let (takes, same) = rest.0 (sym step ∙ h) in
              ((fine, takes), same ∙ append_assoc done (r ∷ []) rs)),
          (λ (takes, same). step ∙ rest.1 (takes.1, same ∙ sym (append_assoc done (r ∷ []) rs))),
        )
  ]

  setup-register_all :
      (enable_webhooks : String)
      → setup mgr enable_webhooks ≡ register_all [] (all_parts enable_webhooks)
  unfolding setup setup_webhooks register_all setup_security_baseline_reconciler
      setup_workload_policy_reconciler setup_telemetry_profile_reconciler
      setup_security_baseline_webhook setup_workload_policy_webhook setup_telemetry_profile_webhook
      setup_pod_webhook setup_pod_mutator_webhook
  setup-register_all enable_webhooks = elim (Bool-cases (enable_webhooks == "false")) [
    | inl off ↦ rw off (ground arith)
    | inr on ↦ rw on (ground arith)
  ]

module _ {Q Raw : Type 0} (flags : Flags) (enable_webhooks : String) (runtime : Runtime Q Raw) where
  -- The manager was made with the options of the flags, and takes all registrations.
  pub record IsReady (mgr : Manager Q Raw) : Type 0 where
    pub made : runtime.new_manager (manager_options flags) ≡ ok mgr
    pub takes : TakesAll mgr [] (all_parts mgr enable_webhooks)

  main_cases :
      (((main flags enable_webhooks runtime).started ≡ none)
        × ((main flags enable_webhooks runtime).code ≡ 1)
        × ((mgr : Manager Q Raw) → IsReady mgr → ⊥))
      ⊎ ((mgr : Manager Q Raw) × IsReady mgr
          × ((main flags enable_webhooks runtime).started ≡ some (all_parts mgr enable_webhooks))
          × (((main flags enable_webhooks runtime).code ≡ 0)
              ↔ (runtime.start mgr (all_parts mgr enable_webhooks) ≡ none)))
  unfolding main
  main_cases = elim (Result-cases (runtime.new_manager (manager_options flags))) [
    | inr (e, bad) ↦ inl (ground (arith, bad), ground (arith, bad), (λ mgr r. cc (bad, r.made)))
    | inl (mgr, made) ↦ elim (Result-cases (setup mgr enable_webhooks)) [
      | inr (e, bad) ↦ inl (
        ground (arith, made, bad),
        ground (arith, made, bad),
        (λ mgr' r.
            let same : mgr' ≡ mgr = cc (made, r.made) in
            let takes = subst (λ m. TakesAll m [] (all_parts m enable_webhooks)) same r.takes in
            let fine =
              (register_all_iff mgr [] (all_parts mgr enable_webhooks)
                  (all_parts mgr enable_webhooks)).1
                (takes, refl) in
            cc (bad, setup-register_all mgr enable_webhooks, fine)),
      )
      | inl (rs, good) ↦
          let (takes, same) =
            (register_all_iff mgr [] (all_parts mgr enable_webhooks) rs).0
              (sym (setup-register_all mgr enable_webhooks) ∙ good) in
          inr (
            mgr,
            record { made = made; takes = takes },
            ground (arith, made, good, same),
            elim (Option-cases (runtime.start mgr rs)) [
              | inl fine ↦ (
                (λ _. ap (runtime.start mgr) (sym same) ∙ fine),
                λ _. ground (arith, made, good, fine),
              )
              | inr (e, bad) ↦ (
                (λ h. absurd (ground (arith, made, good, bad, h))),
                (λ h. absurd (cc (h, bad, same))),
              )
            ],
          )
    ]
  ]

  -- The manager is started exactly when it could be made and takes every registration, and then
  -- with these: the three controllers, unless ENABLE_WEBHOOKS is "false" the five webhooks, and the
  -- two checks. The process ends with 0 exactly when, besides, the manager's run ends without an
  -- error.
  pub main_lem :
      ((rs : List (Registration Q Raw))
        → ((main flags enable_webhooks runtime).started ≡ some rs)
          ↔ ((mgr : Manager Q Raw) × IsReady mgr × (rs ≡ all_parts mgr enable_webhooks)))
      × (((main flags enable_webhooks runtime).code ≡ 0) ↔ (
          (mgr : Manager Q Raw) × IsReady mgr
          × (runtime.start mgr (all_parts mgr enable_webhooks) ≡ none)))
  main_lem = elim main_cases [
    | inl (never, failed, unready) ↦ (
      (λ rs. ((λ h. absurd (cc (h, never))), λ (mgr, r, _). absurd (unready mgr r))),
      ((λ h. absurd (ground (arith, h, failed))), λ (mgr, r, _). absurd (unready mgr r)),
    )
    | inr (mgr, r, started, code) ↦
        let only = λ (mgr' : Manager Q Raw) (r' : IsReady mgr').
          let same : mgr' ≡ mgr = cc (r.made, r'.made) in same in
        (
          (λ rs. (
            (λ h. (mgr, r, cc (h, started))),
            λ (mgr', r', e).
                started ∙ ap some (sym (e ∙ ap (λ m. all_parts m enable_webhooks) (only mgr' r'))),
          )),
          (
            (λ h. (mgr, r, code.0 h)),
            λ (mgr', r', fine). code.1 (
                subst (λ m. runtime.start m (all_parts m enable_webhooks) ≡ none) (only mgr' r')
                  fine),
          ),
        )
  ]
