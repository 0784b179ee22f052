-- ===== src/Mutator/Valid.antt =====
-- Policies whose quantities all parse, in the order in which the mutating webhook visits them.
use mathlib.Core.Bool.{Bool-set}
use platform_governance_oper.Prelude.{
  String, ◌≡◌, Bool, true, Option, is_some, List, [], ◌∷◌, All, All_prop, All-sorted, IsSliceSort,
  Entries, inl, inr, Option-cases, ap,
}
use platform_governance_oper.Api.{WorkloadPolicy}
use platform_governance_oper.Defaults.Fill.{Parses}
use platform_governance_oper.Defaults.Resources.{HasValidQuantities, requests, limits}

module _ {Q : Type 0} (parse_quantity : String → Option Q) where
  abbrev IsParsed : Entries String → Type 0
  IsParsed = All (λ (d : String × String). is_some (parse_quantity d.1) ≡ true)

  IsParsed-of_Parses : (ds : Entries String) → Parses parse_quantity ds → IsParsed ds
  IsParsed-of_Parses [] h = tt
  IsParsed-of_Parses (d ∷ ds) ((q, e), h) = (ap is_some e, IsParsed-of_Parses ds h)

  Parses-of_IsParsed : (ds : Entries String) → IsParsed ds → Parses parse_quantity ds
  Parses-of_IsParsed [] h = tt
  Parses-of_IsParsed (d ∷ ds) (e, h) = (
    elim (Option-cases (parse_quantity d.1)) [
      | inl missing ↦ absurd (cc (rw missing at e))
      | inr (q, found) ↦ (q, found)
    ],
    Parses-of_IsParsed ds h,
  )

  IsParsed-prop : (ds : Entries String) → IsProp (IsParsed ds)
  IsParsed-prop =
      All_prop (λ (d : String × String). is_some (parse_quantity d.1) ≡ true)
        (λ d. Bool-set (is_some (parse_quantity d.1)) true)

  abbrev AreParsed : WorkloadPolicy → Type 0
  AreParsed policy = IsParsed (requests policy) × IsParsed (limits policy)

  AreParsed-of_valid :
      (policies : List WorkloadPolicy)
      → All (HasValidQuantities parse_quantity) policies
      → All AreParsed policies
  AreParsed-of_valid [] h = tt
  AreParsed-of_valid (policy ∷ policies) ((r, l), h) = (
    (IsParsed-of_Parses (requests policy) r, IsParsed-of_Parses (limits policy) l),
    AreParsed-of_valid policies h,
  )

  valid-of_AreParsed :
      (policies : List WorkloadPolicy)
      → All AreParsed policies
      → All (HasValidQuantities parse_quantity) policies
  valid-of_AreParsed [] h = tt
  valid-of_AreParsed (policy ∷ policies) ((r, l), h) = (
    (Parses-of_IsParsed (requests policy) r, Parses-of_IsParsed (limits policy) l),
    valid-of_AreParsed policies h,
  )

  pub HasValidQuantities-sorted :
      {sort : (WorkloadPolicy → WorkloadPolicy → Bool) → List WorkloadPolicy → List WorkloadPolicy}
      (sorts : IsSliceSort sort) (less : WorkloadPolicy → WorkloadPolicy → Bool)
      (policies : List WorkloadPolicy)
      → All (HasValidQuantities parse_quantity) policies
      → All (HasValidQuantities parse_quantity) (sort less policies)
  HasValidQuantities-sorted {sort} sorts less policies valid =
      let sorted = sort less policies in
      let prop : (policy : WorkloadPolicy) → IsProp (AreParsed policy) =
        λ policy. hlevel (IsParsed-prop (requests policy), IsParsed-prop (limits policy)) in
      valid-of_AreParsed sorted (
        All-sorted sorts less (HasValidQuantities parse_quantity) policies
          (All_prop AreParsed prop sorted) valid (AreParsed-of_valid sorted))
