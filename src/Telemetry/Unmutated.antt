-- ===== src/Telemetry/Unmutated.antt =====
-- `applyTelemetry` where it reports no change: the profiles had nothing left to add.
use platform_governance_oper.Prelude.{
  ◌≡◌, true, false, List, [], ◌∷◌, arith, Bool-cases, inl, inr, All, All_prop, subst,
}
use platform_governance_oper.Api.{TelemetryProfile}
use platform_governance_oper.Kube.{EnvVar, Container, Progress}
use platform_governance_oper.Telemetry.{
  append_if_missing, inject_env, is_inactive, inject_containers, telemetry_round, apply_telemetry,
}
use platform_governance_oper.Telemetry.Again.{IsTraced, AreTraced, telemetry_round-traced}

inject_env-unmutated :
    (profile : TelemetryProfile) (env : List EnvVar)
    → (inject_env profile env).1 ≡ false
    → IsTraced profile env
unfolding inject_env append_if_missing
inject_env-unmutated profile env kept = record {
  endpoint = λ on. ground (arith, kept);
  sampler = λ on rate. ground (arith, kept, rate);
}

module _ {Q : Type 0} where
  inject_containers-unmutated :
      (profile : TelemetryProfile) (cs : List (Container Q))
      → (inject_containers profile cs).1 ≡ false
      → AreTraced cs profile
  unfolding inject_containers
  inject_containers-unmutated profile [] kept = tt
  inject_containers-unmutated profile (c ∷ cs) kept = (
    inject_env-unmutated profile c.env (ground (arith, kept)),
    inject_containers-unmutated profile cs (ground (arith, kept)),
  )

  AreTraced-inactive :
      (profile : TelemetryProfile) (cs : List (Container Q))
      → is_inactive profile ≡ true
      → AreTraced cs profile
  AreTraced-inactive profile [] off = tt
  AreTraced-inactive profile (c ∷ cs) off =
      (record { endpoint = λ on. cc; sampler = λ on rate. cc }, AreTraced-inactive profile cs off)

  telemetry_round-unmutated :
      (profile : TelemetryProfile) (s : Progress Q)
      → (telemetry_round profile s).mutated ≡ false
      → (s.mutated ≡ false) × AreTraced s.pod.containers profile
  unfolding telemetry_round
  telemetry_round-unmutated profile s kept = elim (Bool-cases (is_inactive profile)) [
    | inl off ↦ (ground (arith, off, kept), AreTraced-inactive profile s.pod.containers off)
    | inr on ↦ (
      ground (arith, on, kept),
      inject_containers-unmutated profile s.pod.containers (ground (arith, on, kept)),
    )
  ]

  apply_telemetry-found :
      (profiles : List TelemetryProfile) (s : Progress Q)
      → (apply_telemetry profiles s).mutated ≡ false
      → (s.mutated ≡ false) × All (AreTraced s.pod.containers) profiles
  unfolding apply_telemetry
  apply_telemetry-found [] s kept = (kept, tt)
  apply_telemetry-found (profile ∷ profiles) s kept =
      let (now, later) = apply_telemetry-found profiles (telemetry_round profile s) kept in
      let (before, here) = telemetry_round-unmutated profile s now in
      (
        before,
        (
          here,
          subst (λ (t : Progress Q). All (AreTraced t.pod.containers) profiles)
              (telemetry_round-traced profile s here) later,
        ),
      )

  -- Where no profile changed the pod, its containers had what each of them adds.
  pub apply_telemetry-unmutated :
      (profiles : List TelemetryProfile) (s : Progress Q)
      → (apply_telemetry profiles s).mutated ≡ false
      → All (AreTraced s.pod.containers) profiles
  apply_telemetry-unmutated profiles s kept = (apply_telemetry-found profiles s kept).1

IsTraced-prop : (profile : TelemetryProfile) (env : List EnvVar) → IsProp (IsTraced profile env)
IsTraced-prop profile env = hlevel

pub AreTraced-prop :
    {Q : Type 0} (cs : List (Container Q)) (profile : TelemetryProfile)
    → IsProp (AreTraced cs profile)
AreTraced-prop cs profile =
    All_prop (λ c. IsTraced profile c.env) (λ c. IsTraced-prop profile c.env) cs
