-- ===== src/Mutator/Given.antt =====
-- The values that a pod gets from the mutating webhook, and that a pod with all of them keeps.
use platform_governance_oper.Prelude.{
  String, ◌≡◌, sym, ap, ◌∙◌, false, Option, List, [], ◌∷◌, map, All, Zip, entries, lookup, first_of,
  subst,
}
use platform_governance_oper.Api.{WorkloadPolicy, TelemetryProfile}
use platform_governance_oper.Kube.{EnvVar, Container, Pod, Progress}
use platform_governance_oper.Defaults.Labels.{label}
use platform_governance_oper.Defaults.Resources.{HasValidQuantities, requests, limits, made}
use platform_governance_oper.Telemetry.{apply_telemetry}
use platform_governance_oper.Telemetry.Values.{
  env_value, first_offered, inject_all, inject_all-env_value, with_env, apply_telemetry-containers,
}
use platform_governance_oper.Mutator.{apply_policies, mutate}
use platform_governance_oper.Mutator.Grows.{made_pod}
use platform_governance_oper.Mutator.Priority.{first_default, label-mutate}
use platform_governance_oper.Mutator.Filled.{first_quantity, IsFilledBy, apply_policies-IsFilledBy}

module _ {Q : Type 0} (parse_quantity : String → Option Q) where
  module _ (policies : List WorkloadPolicy) (profiles : List TelemetryProfile) where
    -- Each request, limit and variable is the container's own, else the first that a policy or a
    -- profile gives; nothing else differs.
    pub record IsGiven (c c' : Container Q) : Type 0 where
      pub requested :
          (k : String)
          → lookup k (entries c'.requests)
            ≡ first_of
                (lookup k (entries c.requests))
                (first_quantity parse_quantity requests k policies)
      pub limited :
          (k : String)
          → lookup k (entries c'.limits)
            ≡ first_of
                (lookup k (entries c.limits))
                (first_quantity parse_quantity limits k policies)
      pub variables :
          (k : String)
          → env_value k c'.env ≡ first_of (env_value k c.env) (first_offered k profiles)
      pub rest : c' ≡ record c { requests = c'.requests; limits = c'.limits; env = c'.env }

    -- So for the containers of a pod, and its labels.
    pub record Gives (pod pod' : Pod Q) : Type 0 where
      pub labels : (k : String) → label k pod' ≡ first_of (label k pod) (first_default k policies)
      pub containers : Zip IsGiven pod.containers pod'.containers

    IsGiven-of_filled :
        (c c' : Container Q)
        → IsFilledBy parse_quantity policies (with_env (inject_all profiles) c) c'
        → IsGiven c c'
    IsGiven-of_filled c c' f = record {
      requested = f.requested;
      limited = f.limited;
      variables = λ k.
          ap (λ (d : Container Q). env_value k d.env) f.rest
          ∙ inject_all-env_value k profiles c.env;
      rest =
          f.rest
          ∙ ap
              (λ (env : List EnvVar). record c {
                requests = c'.requests;
                limits = c'.limits;
                env = env;
              })
              (sym (ap (λ (d : Container Q). d.env) f.rest));
    }

    IsGiven-Zip :
        (cs cs' : List (Container Q))
        → Zip (IsFilledBy parse_quantity policies) (map (with_env (inject_all profiles)) cs) cs'
        → Zip IsGiven cs cs'
    IsGiven-Zip [] [] z = tt
    IsGiven-Zip [] (_ ∷ _) z = absurd z
    IsGiven-Zip (_ ∷ _) [] z = absurd z
    IsGiven-Zip (c ∷ cs) (c' ∷ cs') (f, z) = (IsGiven-of_filled c c' f, IsGiven-Zip cs cs' z)

    -- What the mutating webhook does to a pod.
    pub mutate-Gives :
        (pod : Pod Q)
        → All (HasValidQuantities parse_quantity) policies
        → Gives pod (mutate parse_quantity profiles policies pod).pod
    unfolding mutate
    mutate-Gives pod v =
        let start : Progress Q = record { pod = pod; mutated = false; events = [] } in
        record {
          labels = λ k. label-mutate parse_quantity k profiles policies pod;
          containers = IsGiven-Zip pod.containers _ (
              subst
                (λ (p : Pod Q).
                  Zip (IsFilledBy parse_quantity policies) p.containers
                    (apply_policies parse_quantity policies
                      (apply_telemetry profiles start)).pod.containers)
                (apply_telemetry-containers profiles start)
                (apply_policies-IsFilledBy parse_quantity policies (apply_telemetry profiles start)
                  v));
        }

    IsGiven-made :
        (cs cs' : List (Container Q)) → Zip IsGiven cs cs' → Zip IsGiven cs (map made cs')
    IsGiven-made [] [] z = tt
    IsGiven-made [] (_ ∷ _) z = absurd z
    IsGiven-made (_ ∷ _) [] z = absurd z
    IsGiven-made (c ∷ cs) (c' ∷ cs') (g, z) = (
      record {
        requested = g.requested;
        limited = g.limited;
        variables = g.variables;
        rest = ap made g.rest;
      },
      IsGiven-made cs cs' z,
    )

    IsGiven-of_made :
        (cs cs' : List (Container Q)) → Zip IsGiven cs (map made cs') → Zip IsGiven cs cs'
    IsGiven-of_made [] [] z = tt
    IsGiven-of_made [] (_ ∷ _) z = absurd z
    IsGiven-of_made (_ ∷ _) [] z = absurd z
    IsGiven-of_made (c ∷ cs) (c' ∷ cs') (g, z) = (
      record {
        requested = g.requested;
        limited = g.limited;
        variables = g.variables;
        rest =
            ap (λ (d : Container Q). record d { requests = c'.requests; limits = c'.limits })
              g.rest;
      },
      IsGiven-of_made cs cs' z,
    )

    -- Which maps of the pod are nil does not matter.
    pub Gives-like :
        (pod pod' pod'' : Pod Q) → made_pod pod' ≡ made_pod pod'' → Gives pod pod' → Gives pod pod''
    Gives-like pod pod' pod'' like g = record {
      labels = λ k. sym (ap (label k) like) ∙ g.labels k;
      containers = IsGiven-of_made pod.containers pod''.containers (
          subst (Zip IsGiven pod.containers) (ap (λ (p : Pod Q). p.containers) like)
            (IsGiven-made pod.containers pod'.containers g.containers));
    }
