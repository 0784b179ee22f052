-- ===== src/Telemetry/Again.antt =====
-- `applyTelemetry` on a pod that has been through it.
use platform_governance_oper.Prelude.{
  String, ◌==◌, ◌≡◌, refl, true, false, ◌||◌, List, [], ◌∷◌, ◌++◌, map, arith, Bool-cases, inl, inr,
  All, All-swap, eq_refl,
}
use platform_governance_oper.Api.{TelemetryProfile}
use platform_governance_oper.Kube.{EnvVar, Container, Progress}
use platform_governance_oper.Telemetry.{
  otlp_endpoint, sampler_arg, container_has_env_var, append_if_missing, inject_env, is_inactive,
  inject_containers, telemetry_round, apply_telemetry,
}
use platform_governance_oper.Telemetry.Values.{
  inject, inject_all, with_env, apply_telemetry-containers,
}

-- The environment has the variables that the profile would add.
pub record IsTraced (profile : TelemetryProfile) (env : List EnvVar) : Type 0 where
  pub endpoint : is_inactive profile ≡ false → container_has_env_var env otlp_endpoint ≡ true
  pub sampler :
      is_inactive profile ≡ false
      → (profile.spec.sampling_rate == "") ≡ false
      → container_has_env_var env sampler_arg ≡ true

-- Variables are only added.
pub record HasEnvOf (env env' : List EnvVar) : Type 0 where
  pub keep : (k : String) → container_has_env_var env k ≡ true → container_has_env_var env' k ≡ true

HasEnvOf-refl : (env : List EnvVar) → HasEnvOf env env
HasEnvOf-refl env = record { keep = λ k h. h }

HasEnvOf-trans : {a b c : List EnvVar} → HasEnvOf a b → HasEnvOf b c → HasEnvOf a c
HasEnvOf-trans p q = record { keep = λ k h. q.keep k (p.keep k h) }

container_has_env_var-append :
    (k : String) (env env' : List EnvVar)
    → container_has_env_var (env ++ env') k
      ≡ (container_has_env_var env k || container_has_env_var env' k)
unfolding container_has_env_var
container_has_env_var-append k [] env' = refl
container_has_env_var-append k (e ∷ env) env' =
    ground (arith, container_has_env_var-append k env env')

append_if_missing-HasEnvOf :
    (k v : String) (env : List EnvVar) → HasEnvOf env (append_if_missing k v env).0
unfolding append_if_missing
append_if_missing-HasEnvOf k v env = record {
  keep = λ j h.
      ground (arith, container_has_env_var-append j env (record { name = k; value = v } ∷ []));
}

append_if_missing-has :
    (k v : String) (env : List EnvVar)
    → container_has_env_var (append_if_missing k v env).0 k ≡ true
unfolding append_if_missing container_has_env_var
append_if_missing-has k v env =
    ground
      (arith, container_has_env_var-append k env (record { name = k; value = v } ∷ []), eq_refl k)

inject_env-HasEnvOf :
    (profile : TelemetryProfile) (env : List EnvVar) → HasEnvOf env (inject_env profile env).0
unfolding inject_env
inject_env-HasEnvOf profile env =
    let env' = (append_if_missing otlp_endpoint profile.spec.tracing_endpoint env).0 in
    let first = append_if_missing-HasEnvOf otlp_endpoint profile.spec.tracing_endpoint env in
    elim (Bool-cases (profile.spec.sampling_rate == "")) [
      | inl no_rate ↦ rw no_rate first
      | inr rate ↦ rw rate (
          HasEnvOf-trans first
            (append_if_missing-HasEnvOf sampler_arg profile.spec.sampling_rate env'))
    ]

inject_env-IsTraced :
    (profile : TelemetryProfile) (env : List EnvVar) → IsTraced profile (inject_env profile env).0
unfolding inject_env
inject_env-IsTraced profile env =
    let env' = (append_if_missing otlp_endpoint profile.spec.tracing_endpoint env).0 in
    let has = append_if_missing-has otlp_endpoint profile.spec.tracing_endpoint env in
    elim (Bool-cases (profile.spec.sampling_rate == "")) [
      | inl no_rate ↦ rw no_rate (record { endpoint = λ on. has; sampler = λ on rate. cc })
      | inr rate ↦ rw rate (record {
        endpoint = λ on.
            (append_if_missing-HasEnvOf sampler_arg profile.spec.sampling_rate env').keep
              otlp_endpoint has;
        sampler = λ on _. append_if_missing-has sampler_arg profile.spec.sampling_rate env';
      })
    ]

IsTraced-HasEnvOf :
    {profile : TelemetryProfile} {env env' : List EnvVar}
    → HasEnvOf env env'
    → IsTraced profile env
    → IsTraced profile env'
IsTraced-HasEnvOf h t = record {
  endpoint = λ on. h.keep otlp_endpoint (t.endpoint on);
  sampler = λ on rate. h.keep sampler_arg (t.sampler on rate);
}

inject-HasEnvOf :
    (profile : TelemetryProfile) (env : List EnvVar) → HasEnvOf env (inject profile env)
inject-HasEnvOf profile env = elim (Bool-cases (is_inactive profile)) [
  | inl off ↦ rw off (HasEnvOf-refl env)
  | inr on ↦ rw on (inject_env-HasEnvOf profile env)
]

inject-IsTraced :
    (profile : TelemetryProfile) (env : List EnvVar) → IsTraced profile (inject profile env)
inject-IsTraced profile env = elim (Bool-cases (is_inactive profile)) [
  | inl off ↦ record { endpoint = λ on. cc; sampler = λ on rate. cc }
  | inr on ↦ rw on (inject_env-IsTraced profile env)
]

inject_all-HasEnvOf :
    (profiles : List TelemetryProfile) (env : List EnvVar) → HasEnvOf env (inject_all profiles env)
inject_all-HasEnvOf [] env = HasEnvOf-refl env
inject_all-HasEnvOf (profile ∷ profiles) env =
    HasEnvOf-trans (inject-HasEnvOf profile env) (inject_all-HasEnvOf profiles (inject profile env))

-- After all profiles an environment is traced by each of them.
inject_all-IsTraced :
    (profiles : List TelemetryProfile) (env : List EnvVar)
    → All (λ profile. IsTraced profile (inject_all profiles env)) profiles
inject_all-IsTraced [] env = tt
inject_all-IsTraced (profile ∷ profiles) env = (
  IsTraced-HasEnvOf (inject_all-HasEnvOf profiles (inject profile env))
      (inject-IsTraced profile env),
  inject_all-IsTraced profiles (inject profile env),
)

-- A traced environment is left as it is.
inject_env-traced :
    (profile : TelemetryProfile) (env : List EnvVar)
    → is_inactive profile ≡ false
    → IsTraced profile env
    → inject_env profile env ≡ (env, false)
unfolding inject_env append_if_missing
inject_env-traced profile env on t = elim (Bool-cases (profile.spec.sampling_rate == "")) [
  | inl no_rate ↦ ground (arith, no_rate, t.endpoint on)
  | inr rate ↦ ground (arith, rate, t.endpoint on, t.sampler on rate)
]

module _ {Q : Type 0} where
  abbrev pub AreTraced : List (Container Q) → TelemetryProfile → Type 0
  AreTraced cs profile = All (λ c. IsTraced profile c.env) cs

  inject_containers-traced :
      (profile : TelemetryProfile) (cs : List (Container Q))
      → is_inactive profile ≡ false
      → AreTraced cs profile
      → inject_containers profile cs ≡ (cs, false)
  unfolding inject_containers
  inject_containers-traced profile [] on t = refl
  inject_containers-traced profile (c ∷ cs) on (here, t) =
      ground
        (arith, inject_env-traced profile c.env on here, inject_containers-traced profile cs on t)

  pub telemetry_round-traced :
      (profile : TelemetryProfile) (s : Progress Q)
      → AreTraced s.pod.containers profile
      → telemetry_round profile s ≡ s
  unfolding telemetry_round
  telemetry_round-traced profile s t = elim (Bool-cases (is_inactive profile)) [
    | inl off ↦ ground (arith, off)
    | inr on ↦ ground (arith, on, inject_containers-traced profile s.pod.containers on t)
  ]

  -- Where every container has what every profile would add, nothing changes and no event is
  -- recorded.
  pub apply_telemetry-traced :
      (profiles : List TelemetryProfile) (s : Progress Q)
      → All (AreTraced s.pod.containers) profiles
      → apply_telemetry profiles s ≡ s
  unfolding apply_telemetry
  apply_telemetry-traced [] s t = refl
  apply_telemetry-traced (profile ∷ profiles) s (here, t) =
      rw (telemetry_round-traced profile s here) (apply_telemetry-traced profiles s t)

  IsTraced-each :
      (profiles : List TelemetryProfile) (cs : List (Container Q))
      → All
          (λ c. All (λ profile. IsTraced profile c.env) profiles)
          (map (with_env (inject_all profiles)) cs)
  IsTraced-each profiles [] = tt
  IsTraced-each profiles (c ∷ cs) = (inject_all-IsTraced profiles c.env, IsTraced-each profiles cs)

  -- Afterwards every container has what every active profile adds.
  pub apply_telemetry-AreTraced :
      (profiles : List TelemetryProfile) (s : Progress Q)
      → All (AreTraced (apply_telemetry profiles s).pod.containers) profiles
  apply_telemetry-AreTraced profiles s = rw (apply_telemetry-containers profiles s) (
      All-swap (λ (c : Container Q) (profile : TelemetryProfile). IsTraced profile c.env)
        (map (with_env (inject_all profiles)) s.pod.containers) profiles
        (IsTraced-each profiles s.pod.containers))

  -- Injecting a second time changes nothing and records no further event.
  apply_telemetry_idem :
      (profiles : List TelemetryProfile) (s : Progress Q)
      → apply_telemetry profiles (apply_telemetry profiles s) ≡ apply_telemetry profiles s
  apply_telemetry_idem profiles s =
      apply_telemetry-traced profiles (apply_telemetry profiles s)
        (apply_telemetry-AreTraced profiles s)
