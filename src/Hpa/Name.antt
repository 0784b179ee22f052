-- ===== src/Hpa/Name.antt =====
-- `managedHPAName`: a valid length, and which Deployments share a name.
use Prim.Native.Char.{Char, len_utf8}
use Prim.Native.Nat.{compare, Ordering}
use Prim.Native.String.{slice, fits}
use Prim.Native.String.len
use Prim.Native.String.slice
use text.Mathlib.TextPositions.{len-append, slice-append_left, slice_all}
use text.Mathlib.TextLemmas.{append_cancel_right, append_cancel_left}
use platform_governance_oper.Prelude.{
  ℕ, ◌-◌, ◌≤◌, String, ◌<>◌, len, ltb, ◌≡◌, refl, sym, ap, ◌∙◌, arith, Bool-cases, inl, inr,
}
use platform_governance_oper.Api.{WorkloadPolicy}
use platform_governance_oper.Hpa.{
  Deployment, ScaleTargetRef, managed_hpa_name, name_suffix, desired_hpa_for_deployment,
}

len-fits_le :
    (c : Char) (s : String) (n : ℕ)
    → len s ≤ n - len_utf8 c
    → len (fits (compare (len_utf8 c) n) c s) ≤ n
len-fits_le c s n h = go (compare (len_utf8 c) n) refl
  where
    go : (o : Ordering) → compare (len_utf8 c) n ≡ o → len (fits o c s) ≤ n
    go Ordering.lt e = rw (len.cons c s) (ground arith)
    go Ordering.eq e = rw (len.cons c s) (ground arith)
    go Ordering.gt e = rw len.nil (omega arith)

-- A slice from the start has at most the bytes asked for.
len-slice_le : (s : String) (n : ℕ) → len (slice s 0 n) ≤ n
len-slice_le String.[] n = rw (slice.nil 0 n) (rw len.nil (omega arith))
len-slice_le (String.◌∷◌ c s) n =
    rw (slice.cons-zero c s n)
      (len-fits_le c (slice s 0 (n - len_utf8 c)) n (len-slice_le s (n - len_utf8 c)))

-- The name of a managed autoscaler has at most 63 bytes, the limit of Kubernetes.
pub len-managed_hpa_name : (name : String) → len (managed_hpa_name name) ≤ 63
unfolding managed_hpa_name
len-managed_hpa_name name = elim (Bool-cases (ltb 55 (len name))) [
  | inl long ↦
      rw long (rw (len-append (slice name 0 55) name_suffix) (omega (arith, len-slice_le name 55)))
  | inr short ↦ rw short (rw (len-append name name_suffix) (ground arith))
]

managed_hpa_name_short :
    (name : String) → len name ≤ 55 → managed_hpa_name name ≡ name <> name_suffix
unfolding managed_hpa_name
managed_hpa_name_short name h = ground arith

-- Different names of at most 55 bytes give different names of autoscalers.
managed_hpa_name-injective :
    (a b : String) → len a ≤ 55 → len b ≤ 55 → managed_hpa_name a ≡ managed_hpa_name b → a ≡ b
managed_hpa_name-injective a b ha hb e =
    append_cancel_right a b name_suffix
      (sym (managed_hpa_name_short a ha) ∙ e ∙ managed_hpa_name_short b hb)

managed_hpa_name_long :
    (base rest : String) → len base ≡ 55 → managed_hpa_name (base <> rest) ≡ base <> name_suffix
unfolding managed_hpa_name
managed_hpa_name_long base rest h =
    let cut : slice (base <> rest) 0 55 ≡ base =
      ap (λ (n : ℕ). slice (base <> rest) 0 n) (sym h) ∙ slice-append_left base rest in
    elim (Bool-cases (ltb 55 (len (base <> rest)))) [
      | inl long ↦ rw long (ap (λ (s : String). s <> name_suffix) cut)
      | inr short ↦
          let whole : len (base <> rest) ≡ 55 = ground (arith, len-append base rest) in
          let same : base <> rest ≡ base =
            sym (slice_all (base <> rest)) ∙ ap (λ (n : ℕ). slice (base <> rest) 0 n) whole ∙ cut in
          rw short (ap (λ (s : String). s <> name_suffix) same)
    ]

managed_hpa_name_shared :
    (base a b : String)
    → len base ≡ 55
    → managed_hpa_name (base <> a) ≡ managed_hpa_name (base <> b)
managed_hpa_name_shared base a b h =
    managed_hpa_name_long base a h ∙ sym (managed_hpa_name_long base b h)

-- Where the names of two Deployments of one namespace agree in the first 55 bytes, the autoscalers
-- that policies want for them have one name and one namespace, so the two share one autoscaler, and
-- these differ in their targets where the names do.
pub desired_hpa_for_deployment-collision :
    (base a b : String) (p q : WorkloadPolicy) (d e : Deployment)
    → len base ≡ 55
    → d.name ≡ base <> a
    → e.name ≡ base <> b
    → d.namespace ≡ e.namespace
    → ((desired_hpa_for_deployment p d).name ≡ (desired_hpa_for_deployment q e).name)
      × ((desired_hpa_for_deployment p d).namespace ≡ (desired_hpa_for_deployment q e).namespace)
      × ((desired_hpa_for_deployment p d).spec.scale_target_ref
            ≡ (desired_hpa_for_deployment q e).spec.scale_target_ref
          → a ≡ b)
unfolding desired_hpa_for_deployment
desired_hpa_for_deployment-collision base a b p q d e h from_a from_b same = (
  ap managed_hpa_name from_a
      ∙ managed_hpa_name_shared base a b h
      ∙ sym (ap managed_hpa_name from_b),
  same,
  λ target.
      append_cancel_left base a b
        (sym from_a ∙ ap (λ (r : ScaleTargetRef). r.name) target ∙ from_b),
)
