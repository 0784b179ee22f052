-- ===== src/Mutator/Distinct.antt =====
-- Policies and profiles of which no two have the same priority: however they are listed and sorted,
-- the outcome is one.
use mathlib.Core.Logic.Or
use mathlib.Core.List.{Mem, Perm, mem-cons, not-mem-nil}
use native.Mathlib.Nat.{ℕ_set}
use mathlib.Core.List.Perm
use platform_governance_oper.Prelude.{
  ℤ, String-set, All, All-mem, ◌≡◌, ◌≢◌, sym, ap, ◌∙◌, Bool, List, [], ◌∷◌, arith, IsStrictWeak,
  IsSliceSort, Separates, Separates-perm, IsOrdered-eq_of_perm,
}
use platform_governance_oper.Api.{ObjectMeta, WorkloadPolicy, TelemetryProfile}
use platform_governance_oper.Mutator.{policy_before, profile_before}
use platform_governance_oper.Mutator.Priority.{policy_before-IsStrictWeak}

ℤ-set : IsSet ℤ
ℤ-set = hlevel ℕ_set

ObjectMeta-set : IsSet ObjectMeta
ObjectMeta-set = hlevel (String-set, ℤ-set)

WorkloadPolicy-set : IsSet WorkloadPolicy
WorkloadPolicy-set = hlevel (String-set, ℤ-set, ObjectMeta-set)

TelemetryProfile-set : IsSet TelemetryProfile
TelemetryProfile-set = hlevel (String-set, ℤ-set, ObjectMeta-set)

module _ {A : Type 0} (priority : A → ℤ) where
  -- No two elements have the same priority.
  abbrev DistinctPriorities : List A → Type 0
  DistinctPriorities [] = Unit
  DistinctPriorities (x ∷ xs) = All (λ y. priority x ≢ priority y) xs × DistinctPriorities xs

  -- So members with the same priority are one.
  member_of_priority :
      IsSet A
      → (xs : List A) → DistinctPriorities xs
      → (x y : A) → Mem x xs
      → Mem y xs
      → priority x ≡ priority y
      → x ≡ y
  member_of_priority set [] distinct x y m n e = absurd (not-mem-nil m)
  member_of_priority set (z ∷ zs) (other, distinct) x y m n e =
      let differs = λ (w : A) (k : Mem w zs).
        All-mem (λ v. priority z ≢ priority v) (λ v. hlevel) zs other w k in
      Or.elim (set x y) (mem-cons.0 m)
        (λ here.
          Or.elim (set x y) (mem-cons.0 n) (λ there. here ∙ sym there)
            (λ later. absurd (differs y later (sym (ap priority here) ∙ e))))
        (λ later.
          Or.elim (set x y) (mem-cons.0 n)
            (λ there. absurd (differs x later (sym (ap priority there) ∙ sym e)))
            (λ both. member_of_priority set zs distinct x y later both e))

abbrev pub DistinctPolicies : List WorkloadPolicy → Type 0
DistinctPolicies = DistinctPriorities (λ p. p.spec.priority)

abbrev pub DistinctProfiles : List TelemetryProfile → Type 0
DistinctProfiles = DistinctPriorities (λ p. p.spec.priority)

profile_before-IsStrictWeak : IsStrictWeak profile_before
profile_before-IsStrictWeak = record {
  asymm = λ x y h. ground arith;
  cotrans = λ x y z h. ground arith;
}

-- Two sorts of permuted lists agree where the order separates the elements.
sorts_agree :
    {A : Type 0} (less : A → A → Bool) (sort sort' : (A → A → Bool) → List A → List A)
    → IsStrictWeak less
    → IsSliceSort sort
    → IsSliceSort sort'
    → (xs ys : List A) → Separates less xs
    → Perm xs ys
    → sort less xs ≡ sort' less ys
sorts_agree less sort sort' weak s s' xs ys apart p =
    IsOrdered-eq_of_perm less (sort less xs) (sort' less ys) weak
      (Separates-perm less (sort less xs) xs (s.permutes less xs) apart) (s.orders less xs weak)
      (s'.orders less ys weak)
      (Perm.trans (s.permutes less xs) (Perm.trans p (Perm.symm (s'.permutes less ys))))

pub policies_agree :
    (sort sort' : (WorkloadPolicy → WorkloadPolicy → Bool)
      → List WorkloadPolicy
      → List WorkloadPolicy)
    → IsSliceSort sort
    → IsSliceSort sort'
    → (ps ps' : List WorkloadPolicy) → DistinctPolicies ps
    → Perm ps ps'
    → sort policy_before ps ≡ sort' policy_before ps'
policies_agree sort sort' s s' ps ps' apart =
    sorts_agree policy_before sort sort' policy_before-IsStrictWeak s s' ps ps' (λ x y mx my h k.
      member_of_priority (λ (p : WorkloadPolicy). p.spec.priority) WorkloadPolicy-set ps apart x y
        mx my (ground (arith, h, k)))

pub profiles_agree :
    (sort sort' : (TelemetryProfile → TelemetryProfile → Bool)
      → List TelemetryProfile
      → List TelemetryProfile)
    → IsSliceSort sort
    → IsSliceSort sort'
    → (qs qs' : List TelemetryProfile) → DistinctProfiles qs
    → Perm qs qs'
    → sort profile_before qs ≡ sort' profile_before qs'
profiles_agree sort sort' s s' qs qs' apart =
    sorts_agree profile_before sort sort' profile_before-IsStrictWeak s s' qs qs' (λ x y mx my h k.
      member_of_priority (λ (p : TelemetryProfile). p.spec.priority) TelemetryProfile-set qs apart x
        y mx my (ground (arith, h, k)))
