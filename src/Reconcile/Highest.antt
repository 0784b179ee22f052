-- ===== src/Reconcile/Highest.antt =====
-- `isHighestPriorityPolicy`: the one policy of a namespace that manages autoscalers.
use mathlib.Core.HLevel.{Π_prop}
use mathlib.Core.Bool.{Bool-set}
use mathlib.Core.List.{Mem, mem-cons_self, mem-cons_of_mem}
use platform_governance_oper.Prelude.{
  ◌≡◌, refl, sym, ap, ◌∙◌, subst, ◌⊎◌, ◌↔◌, inl, inr, true, false, ◌&&◌, none, some, List, [], ◌∷◌,
  ok, arith, All, All-mem, Bool-cases, ltb_ℤ, str_ltb, eq_iff,
}
use platform_governance_oper.Api.{WorkloadPolicy}
use platform_governance_oper.Reconcile.{
  Client, beats, scales, consider, highest_of, is_highest_priority_policy,
}
use platform_governance_oper.Reconcile.Beats.{
  beats-IsStrictWeak, beats_irrefl, beats_trans, name_of_tied,
}

-- The policy has no horizontal scaling, or it does not come before the other one: its priority is
-- lower, or the same with a name that is not smaller.
abbrev pub Yields : WorkloadPolicy → WorkloadPolicy → Type 0
Yields policy top =
    (scales policy ≡ false)
    ⊎ ((ltb_ℤ policy.spec.priority top.spec.priority ≡ true)
        ⊎ ((policy.spec.priority ≡ top.spec.priority)
            × (str_ltb policy.meta.name top.meta.name ≡ false)))

-- A listed policy with horizontal scaling to which every listed policy yields.
pub record IsTop (policies : List WorkloadPolicy) (top : WorkloadPolicy) : Type 0 where
  pub listed : Mem top policies
  pub scaling : scales top ≡ true
  pub yields : All (λ policy. Yields policy top) policies

Yields-beats : (x y : WorkloadPolicy) → (scales x ≡ true → beats x y ≡ false) → Yields x y
unfolding beats
Yields-beats x y h = elim (Bool-cases (scales x)) [
  | inr off ↦ inl off
  | inl on ↦
      let no = h on in
      elim (Bool-cases (ltb_ℤ x.spec.priority y.spec.priority)) [
        | inl lower ↦ inr (inl lower)
        | inr not_lower ↦ inr (inr (ground (arith, no), ground (arith, no)))
      ]
]

beats_of_Yields : (x y : WorkloadPolicy) → Yields x y → scales x ≡ true → beats x y ≡ false
unfolding beats
beats_of_Yields x y (inl off) s = absurd (cc (off, s))
beats_of_Yields x y (inr (inl lower)) s = ground arith
beats_of_Yields x y (inr (inr (same, not_smaller))) s = ground (arith, same, not_smaller)

-- A candidate that has no horizontal scaling or does not beat `top`.
abbrev IsBelow : WorkloadPolicy → WorkloadPolicy → Type 0
IsBelow top policy = scales policy ≡ true → beats policy top ≡ false

-- One round: the old `highest` stays, or a candidate that beats it takes its place; neither comes
-- before what is chosen.
consider_cases :
    (c h : WorkloadPolicy)
    → ((consider c (some h) ≡ some h) × IsBelow h c)
      ⊎ ((consider c (some h) ≡ some c) × (scales c ≡ true) × (beats h c ≡ false))
unfolding consider
consider_cases c h = elim (Bool-cases (scales c && beats c h)) [
  | inr off ↦ inl (rw (off, consider) refl, λ s. ground (arith, s, off))
  | inl on ↦ inr (
    rw (on, consider) refl,
    ground (arith, on),
    beats-IsStrictWeak.asymm c h (ground (arith, on)),
  )
]

-- The loop from a `highest` that is set.
highest_of-some :
    (ps : List WorkloadPolicy) (h : WorkloadPolicy)
    → scales h ≡ true
    → (top : WorkloadPolicy) × (highest_of ps (some h) ≡ some top)
      × (scales top ≡ true)
      × ((top ≡ h) ⊎ Mem top ps)
      × (beats h top ≡ false)
      × All (IsBelow top) ps
unfolding highest_of
highest_of-some [] h s = (h, refl, s, inl refl, beats_irrefl h, tt)
highest_of-some (c ∷ ps) h s = elim (consider_cases c h) [
  | inl (stays, below) ↦
      let (top, is, s', from, above, rest) = highest_of-some ps h s in
      (
        top,
        ap (highest_of ps) stays ∙ is,
        s',
        elim from [ inl e ↦ inl e | inr m ↦ inr (mem-cons_of_mem c m) ],
        above,
        ((λ on. beats_trans c h top (below on) above), rest),
      )
  | inr (moves, s', above') ↦
      let (top, is, s'', from, above, rest) = highest_of-some ps c s' in
      (
        top,
        ap (highest_of ps) moves ∙ is,
        s'',
        elim from [
          | inl e ↦ inr (subst (λ x. Mem x (c ∷ ps)) (sym e) mem-cons_self)
          | inr m ↦ inr (mem-cons_of_mem c m)
        ],
        beats_trans h c top above' above,
        ((λ _. above), rest),
      )
]

-- The loop as a whole.
highest_of_cases :
    (ps : List WorkloadPolicy)
    → ((highest_of ps none ≡ none) × All (λ p. scales p ≡ false) ps)
      ⊎ ((top : WorkloadPolicy) × (highest_of ps none ≡ some top)
          × (scales top ≡ true)
          × Mem top ps
          × All (IsBelow top) ps)
unfolding highest_of consider
highest_of_cases [] = inl (refl, tt)
highest_of_cases (c ∷ ps) = elim (Bool-cases (scales c)) [
  | inl on ↦
      let (top, is, s, from, above, rest) = highest_of-some ps c on in
      inr (
        top,
        rw on is,
        s,
        elim from [
          | inl e ↦ subst (λ x. Mem x (c ∷ ps)) (sym e) mem-cons_self
          | inr m ↦ mem-cons_of_mem c m
        ],
        ((λ _. above), rest),
      )
  | inr off ↦ elim (highest_of_cases ps) [
    | inl (unset, none_scale) ↦ inl (rw off unset, (off, none_scale))
    | inr (top, is, s, m, rest) ↦
        inr (top, rw off is, s, mem-cons_of_mem c m, ((λ on. absurd (cc (on, off))), rest))
  ]
]

All-Yields :
    (top : WorkloadPolicy) (ps : List WorkloadPolicy)
    → All (IsBelow top) ps
    → All (λ p. Yields p top) ps
All-Yields top [] h = tt
All-Yields top (p ∷ ps) (below, h) = (Yields-beats p top below, All-Yields top ps h)

All-IsBelow :
    (top : WorkloadPolicy) (ps : List WorkloadPolicy)
    → All (λ p. Yields p top) ps
    → All (IsBelow top) ps
All-IsBelow top [] h = tt
All-IsBelow top (p ∷ ps) (y, h) = (beats_of_Yields p top y, All-IsBelow top ps h)

IsBelow-mem :
    (top p : WorkloadPolicy) (ps : List WorkloadPolicy)
    → All (IsBelow top) ps
    → Mem p ps
    → IsBelow top p
IsBelow-mem top p ps h =
    All-mem (IsBelow top) (λ q. Π_prop λ _. Bool-set (beats q top) false) ps h p

IsTop-name :
    (ps : List WorkloadPolicy) (x y : WorkloadPolicy)
    → Mem x ps
    → scales x ≡ true
    → All (IsBelow x) ps
    → IsTop ps y
    → x.meta.name ≡ y.meta.name
IsTop-name ps x y m s below top =
    name_of_tied x y (IsBelow-mem y x ps (All-IsBelow y ps top.yields) m s)
      (IsBelow-mem x y ps below top.listed top.scaling)

-- Where the policies of its namespace can be listed, a policy counts as the highest exactly when
-- it has the name of a listed policy with horizontal scaling to which all listed ones yield.
pub is_highest_priority_policy_iff :
    {W : Type 0} (client : Client W) (policy : WorkloadPolicy) (w : W) (ps : List WorkloadPolicy)
    → client.list_policies policy.meta.namespace w ≡ ok ps
    → (is_highest_priority_policy client policy w ≡ ok true)
      ↔ ((top : WorkloadPolicy) × IsTop ps top × (top.meta.name ≡ policy.meta.name))
unfolding is_highest_priority_policy
is_highest_priority_policy_iff client policy w ps listed = elim (highest_of_cases ps) [
  | inl (unset, none_scale) ↦ (
    λ e. absurd (ground (arith, listed, unset)),
    λ (top, is_top, named). absurd (
        cc (
          is_top.scaling,
          All-mem (λ p. scales p ≡ false) (λ q. Bool-set (scales q) false) ps none_scale top
              is_top.listed,
        )),
  )
  | inr (top, is, s, m, below) ↦
      let named = eq_iff top.meta.name policy.meta.name in
      (
        λ e. (
          top,
          record { listed = m; scaling = s; yields = All-Yields top ps below },
          ground (arith, listed, is, e, named),
        ),
        λ (top', is_top, e).
            let same = IsTop-name ps top top' m s below is_top ∙ e in
            ground (arith, listed, is, same, named),
      )
]
