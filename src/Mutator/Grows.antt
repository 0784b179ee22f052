-- ===== src/Mutator/Grows.antt =====
-- What the mutating webhook adds to a pod stays enough: all that a policy or a profile gives, the
-- pod has for good.
use platform_governance_oper.Prelude.{
  sym, ap, some, List, [], ◌∷◌, map, All, Zip, entries, HasKeys, HasKeys-Extends, Extends, subst,
}
use platform_governance_oper.Api.{WorkloadPolicy, TelemetryProfile}
use platform_governance_oper.Kube.{Container, Pod}
use platform_governance_oper.Defaults.Labels.{mandatory}
use platform_governance_oper.Defaults.Resources.{IsSaturated, made, Grows, requests, limits}
use platform_governance_oper.Telemetry.Again.{IsTraced, AreTraced}

module _ {Q : Type 0} where
  -- The pod has all that the policy gives.
  pub record IsSettled (pod : Pod Q) (policy : WorkloadPolicy) : Type 0 where
    pub labelled : HasKeys (mandatory policy) (entries pod.labels)
    pub saturated : All (IsSaturated policy) pod.containers

  -- Labels and resources may have been added, and environments are the same.
  pub record PodGrows (pod pod' : Pod Q) : Type 0 where
    pub labels : Extends (entries pod.labels) (entries pod'.labels)
    pub containers : Zip Grows pod.containers pod'.containers

  IsSaturated-Grows :
      (policy : WorkloadPolicy) (cs cs' : List (Container Q))
      → Zip Grows cs cs'
      → All (IsSaturated policy) cs
      → All (IsSaturated policy) cs'
  IsSaturated-Grows policy [] [] z h = tt
  IsSaturated-Grows policy [] (_ ∷ _) z h = absurd z
  IsSaturated-Grows policy (_ ∷ _) [] z h = absurd z
  IsSaturated-Grows policy (c ∷ cs) (c' ∷ cs') (g, z) ((r, l), h) = (
    (HasKeys-Extends (requests policy) g.requests r, HasKeys-Extends (limits policy) g.limits l),
    IsSaturated-Grows policy cs cs' z h,
  )

  pub AreTraced-Grows :
      (profile : TelemetryProfile) (cs cs' : List (Container Q))
      → Zip Grows cs cs'
      → AreTraced cs profile
      → AreTraced cs' profile
  AreTraced-Grows profile [] [] z h = tt
  AreTraced-Grows profile [] (_ ∷ _) z h = absurd z
  AreTraced-Grows profile (_ ∷ _) [] z h = absurd z
  AreTraced-Grows profile (c ∷ cs) (c' ∷ cs') (g, z) (t, h) = (
    subst (IsTraced profile) (sym (ap (λ (d : Container Q). d.env) g.rest)) t,
    AreTraced-Grows profile cs cs' z h,
  )

  pub IsSettled-PodGrows :
      {pod pod' : Pod Q} {policy : WorkloadPolicy}
      → PodGrows pod pod'
      → IsSettled pod policy
      → IsSettled pod' policy
  IsSettled-PodGrows {pod} {pod'} {policy} g h = record {
    labelled = HasKeys-Extends (mandatory policy) g.labels h.labelled;
    saturated = IsSaturated-Grows policy pod.containers pod'.containers g.containers h.saturated;
  }

  -- The pod with its nil maps made.
  abbrev pub made_pod : Pod Q → Pod Q
  made_pod pod = record pod {
    labels = some (entries pod.labels);
    containers = map made pod.containers;
  }

  IsSaturated-made :
      (policy : WorkloadPolicy) (cs : List (Container Q))
      → All (IsSaturated policy) cs
      → All (IsSaturated policy) (map made cs)
  IsSaturated-made policy [] h = tt
  IsSaturated-made policy (c ∷ cs) (here, h) = (here, IsSaturated-made policy cs h)

  pub IsSettled-made_pod :
      (pod : Pod Q) (policies : List WorkloadPolicy)
      → All (IsSettled pod) policies
      → All (IsSettled (made_pod pod)) policies
  IsSettled-made_pod pod [] h = tt
  IsSettled-made_pod pod (policy ∷ policies) (here, h) = (
    record {
      labelled = here.labelled;
      saturated = IsSaturated-made policy pod.containers here.saturated;
    },
    IsSettled-made_pod pod policies h,
  )
