-- ===== src/Scheme/Tests.antt =====
-- A test of the scheme: a library whose schemes and builders are lists of kinds.
use mathlib.Core.List.{Mem, mem-append_left, mem-map_of_mem, mem-cons_self, mem-cons_of_mem}
use platform_governance_oper.Prelude.{
  String, ◌≡◌, refl, subst, List, [], ◌∷◌, ◌++◌, map, some, ok, All, arith,
}
use platform_governance_oper.Operator.Started.{all_parts}
use platform_governance_oper.Scheme.{
  GroupVersion, group_version, Library, init, add_to_scheme, scheme_builder,
  register_security_baseline, register_telemetry_profile, register_workload_policy,
}
use platform_governance_oper.Scheme.Known.{IsLibrary, KnowsKind, init-KnowsKind}
use platform_governance_oper.Samples.{manager}

abbrev Kinds : Type 0
Kinds = List (GroupVersion × String)

abbrev library : Library Kinds (GroupVersion × List String)
library = record {
  new_scheme = [];
  new_builder = λ v. (v, []);
  register = λ ks b. (b.0, b.1 ++ ks);
  add_builder_to_scheme = λ b s. ok (map (λ k. (b.0, k)) b.1 ++ s);
  add_client_go_to_scheme = λ s. ok ((record { group = "apps"; version = "v1" }, "Deployment") ∷ s);
}

abbrev Knows : Kinds → GroupVersion → String → Type 0
Knows s v k = Mem (v, k) s

All_of_mem : (P : String → Type 0) (xs : List String) → ((x : String) → Mem x xs → P x) → All P xs
All_of_mem P [] h = tt
All_of_mem P (x ∷ xs) h = (h x mem-cons_self, All_of_mem P xs (λ y m. h y (mem-cons_of_mem x m)))

library-IsLibrary : IsLibrary library Knows
library-IsLibrary = record {
  version = λ b. b.0;
  kinds = λ b. b.1;
  new_version = λ v. refl;
  new_kinds = λ v. refl;
  register_version = λ ks b. refl;
  register_kinds = λ ks b. refl;
  added = λ b s s' h.
      let same : map (λ k. (b.0, k)) b.1 ++ s ≡ s' = ground (arith, h) in
      subst (λ (s : Kinds). All (Knows s b.0) b.1) same
        (All_of_mem (λ k. Mem (b.0, k) (map (λ k. (b.0, k)) b.1 ++ s)) b.1
          (λ k m. mem-append_left s (mem-map_of_mem (λ (k : String). (b.0, k)) m)));
}

abbrev known : Kinds
known =
    map (λ k. (group_version, k))
      ("SecurityBaseline" ∷ "SecurityBaselineList" ∷ "TelemetryProfile" ∷ "TelemetryProfileList"
        ∷ "WorkloadPolicy" ∷ "WorkloadPolicyList" ∷ [])
    ++ (record { group = "apps"; version = "v1" }, "Deployment") ∷ []

starts : init library ≡ some known
unfolding init add_to_scheme scheme_builder register_security_baseline register_telemetry_profile
    register_workload_policy
starts = refl

init-KnowsKind_example :
    All (KnowsKind library Knows known) (all_parts manager "")
    × All
        (Knows known group_version)
        ("SecurityBaselineList" ∷ "TelemetryProfileList" ∷ "WorkloadPolicyList" ∷ [])
init-KnowsKind_example = init-KnowsKind library Knows library-IsLibrary manager "" known starts
