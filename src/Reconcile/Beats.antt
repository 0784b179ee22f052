-- ===== src/Reconcile/Beats.antt =====
-- The order on policies in the loop of `isHighestPriorityPolicy`.
use platform_governance_oper.Prelude.{
  ◌≡◌, inl, inr, false, arith, Bool-cases, str_ltb-asymm, str_ltb-cotrans, str_ltb-total,
  IsStrictWeak,
}
use platform_governance_oper.Api.{WorkloadPolicy}
use platform_governance_oper.Reconcile.{beats}

pub beats-IsStrictWeak : IsStrictWeak beats
unfolding beats
beats-IsStrictWeak = record {
  asymm = λ x y h. ground (arith, str_ltb-asymm x.meta.name y.meta.name);
  cotrans = λ x y z h. ground (arith, str_ltb-cotrans x.meta.name y.meta.name z.meta.name);
}

pub beats_irrefl : (x : WorkloadPolicy) → beats x x ≡ false
beats_irrefl x = elim (Bool-cases (beats x x)) [
  | inr off ↦ off
  | inl on ↦ beats-IsStrictWeak.asymm x x on
]

-- What does not beat `y` does not beat a `z` that `y` does not beat.
pub beats_trans :
    (x y z : WorkloadPolicy) → beats x y ≡ false → beats y z ≡ false → beats x z ≡ false
beats_trans x y z h h' = elim (Bool-cases (beats x z)) [
  | inr off ↦ off
  | inl on ↦ elim (beats-IsStrictWeak.cotrans x y z on) [
    | inl first ↦ absurd (cc (first, h))
    | inr second ↦ absurd (cc (second, h'))
  ]
]

-- Two policies at the top have the same name.
pub name_of_tied :
    (x y : WorkloadPolicy) → beats x y ≡ false → beats y x ≡ false → x.meta.name ≡ y.meta.name
unfolding beats
name_of_tied x y h h' =
    str_ltb-total x.meta.name y.meta.name (ground (arith, h, h')) (ground (arith, h, h'))
