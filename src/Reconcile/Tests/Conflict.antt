-- ===== src/Reconcile/Tests/Conflict.antt =====
-- A test of conflicts: the cache still has the operator's autoscaler for `web`, and the API server one
-- of another tool; it refuses to update on an old resource version and to create what exists.
use platform_governance_oper.Prelude.{
  String, ◌||◌, false, arith, ◌==◌, ◌≡◌, ◌≢◌, refl, sym, ap, ◌∙◌, subst, inl, inr, true, Option,
  none, some, List, [], ◌∷◌, Result, ok, err, All, Bool-cases, Option-cases, if◌then◌else◌, eq_iff,
  lookup, trim_space, trim_left, trim_right, is_space, parse_bool,
}
use platform_governance_oper.Kube.{Error, not_found, failure}
use platform_governance_oper.Hpa.{
  Deployment, Hpa, hpa_enabled_for_deployment, effective_horizontal_scaling_policy,
  desired_hpa_for_deployment,
}
use platform_governance_oper.Reconcile.{NamespacedName, Client, reconcile_deployment_hpas}
use platform_governance_oper.Reconcile.Steps.{IsStore, key_of}
use platform_governance_oper.Reconcile.Governed.{Wants}
use platform_governance_oper.Reconcile.Conflict.{
  IsVersioned, OptsInAt, reconcile_deployment_hpas-keeps,
}
use platform_governance_oper.Reconcile.Memory.{
  Memory, stored, memory, memory-IsStore, same_key, same_key-eq,
}
use platform_governance_oper.Samples.{standard_policy}
use platform_governance_oper.Reconcile.Tests.{
  policies, web, foreign, taken, foreign_is_stored, foreign-is_managed,
}

abbrev part : Client Memory
part = memory policies (web ∷ []) standard_policy

part-IsStore : IsStore part stored
part-IsStore = memory-IsStore policies (web ∷ []) standard_policy

abbrev cached : Hpa
cached = record (desired_hpa_for_deployment standard_policy web) { resource_version = "6" }

abbrev old : NamespacedName → Result Error Hpa
old k = if same_key (key_of cached) k then ok cached else err not_found

-- The cache has the content of version 6.
abbrev read : NamespacedName → Option Hpa → Result Error Hpa
read k none = old k
read k (some now) = if now.resource_version == "6" then ok now else old k

-- A create and an update, given what is stored at the key.
abbrev created_at : Option Hpa → Hpa → Memory → Option Error × Memory
created_at none h w = part.create_hpa h w
created_at (some now) h w = (some (failure "AlreadyExists"), w)

abbrev updated_at : Option Hpa → Hpa → Memory → Option Error × Memory
updated_at none h w = (some not_found, w)
updated_at (some now) h w =
    if h.resource_version == "" || h.resource_version == now.resource_version
    then part.update_hpa h w
    else (some (failure "Conflict"), w)

abbrev server : Client Memory
server = record part {
  get_hpa = λ k w. read k (stored w k);
  create_hpa = λ h w. created_at (stored w (key_of h)) h w;
  update_hpa = λ h w. updated_at (stored w (key_of h)) h w;
}

created_at-frame :
    (o : Option Hpa) (w : Memory) (h : Hpa) (k : NamespacedName)
    → k ≢ key_of h
    → stored (created_at o h w).1 k ≡ stored w k
created_at-frame none w h k other = part-IsStore.create_frame w h k other
created_at-frame (some now) w h k other = refl

updated_at-frame :
    (o : Option Hpa) (w : Memory) (h : Hpa) (k : NamespacedName)
    → k ≢ key_of h
    → stored (updated_at o h w).1 k ≡ stored w k
updated_at-frame none w h k other = refl
updated_at-frame (some now) w h k other =
    elim (Bool-cases (h.resource_version == "" || h.resource_version == now.resource_version)) [
      | inl on ↦ rw on (part-IsStore.update_frame w h k other)
      | inr off ↦ rw off refl
    ]

not_equal : (a b : String) → a ≢ b → (a == b) ≡ false
not_equal a b other = elim (Bool-cases (a == b)) [
  | inl on ↦ absurd (other ((eq_iff a b).0 on))
  | inr off ↦ off
]

updated_at-conflict :
    (w : Memory) (h now : Hpa)
    → stored w (key_of h) ≡ some now
    → h.resource_version ≢ ""
    → h.resource_version ≢ now.resource_version
    → stored (updated_at (some now) h w).1 (key_of h) ≡ some now
updated_at-conflict w h now here set other =
    let unset : h.resource_version == "" ≡ false = not_equal h.resource_version "" set in
    let differs : h.resource_version == now.resource_version ≡ false =
      not_equal h.resource_version now.resource_version other in
    rw unset (rw differs here)

old-keyed : (k : NamespacedName) (h : Hpa) → old k ≡ ok h → key_of h ≡ k
old-keyed k h e = elim (Bool-cases (same_key (key_of cached) k)) [
  | inr off ↦ absurd (cc (rw off at e))
  | inl on ↦
      let same : cached ≡ h = cc (rw on at e) in
      ap key_of (sym same) ∙ same_key-eq (key_of cached) k on
]

read-keyed : (w : Memory) (k : NamespacedName) (h : Hpa) → read k (stored w k) ≡ ok h → key_of h ≡ k
read-keyed w k h e = elim (Option-cases (stored w k)) [
  | inl gone ↦ old-keyed k h (rw gone at e)
  | inr (now, here) ↦ elim (Bool-cases (now.resource_version == "6")) [
    | inr off ↦ old-keyed k h (rw off at (rw here at e))
    | inl on ↦
        let same : now ≡ h = cc (rw on at (rw here at e)) in
        part-IsStore.keyed w k h (here ∙ ap some same)
  ]
]

old-version : (k : NamespacedName) (h : Hpa) → old k ≡ ok h → h.resource_version ≡ "6"
old-version k h e = elim (Bool-cases (same_key (key_of cached) k)) [
  | inr off ↦ absurd (cc (rw off at e))
  | inl on ↦
      let same : cached ≡ h = cc (rw on at e) in ap (λ (h : Hpa). h.resource_version) (sym same)
]

numbered :
    (w : Memory) (k : NamespacedName) (h : Hpa)
    → read k (stored w k) ≡ ok h
    → h.resource_version ≢ ""
numbered w k h e none_given =
    let six : h.resource_version ≡ "6" = elim (Option-cases (stored w k)) [
      | inl gone ↦ old-version k h (rw gone at e)
      | inr (now, here) ↦ elim (Bool-cases (now.resource_version == "6")) [
        | inr off ↦ old-version k h (rw off at (rw here at e))
        | inl on ↦
            let same : now ≡ h = cc (rw on at (rw here at e)) in
            ap (λ (h : Hpa). h.resource_version) (sym same) ∙ (eq_iff now.resource_version "6").0 on
      ]
    ] in
    ground (arith, eq_iff "6" "", sym six ∙ none_given)

one_content :
    (w : Memory) (k : NamespacedName) (h now : Hpa)
    → read k (stored w k) ≡ ok h
    → stored w k ≡ some now
    → h.resource_version ≡ now.resource_version
    → h ≡ now
one_content w k h now e here same = elim (Bool-cases (now.resource_version == "6")) [
  | inl on ↦ cc (rw on at (rw here at e))
  | inr off ↦
      let version = old-version k h (rw off at (rw here at e)) in
      absurd (cc (off, (eq_iff now.resource_version "6").1 (sym same ∙ version)))
]

server-IsVersioned : IsVersioned server stored
server-IsVersioned = record {
  keyed = read-keyed;
  numbered = numbered;
  one_content = one_content;
  create_frame = λ w h k other. created_at-frame (stored w (key_of h)) w h k other;
  create_exists = λ w h now here. ap (λ o. stored (created_at o h w).1 (key_of h)) here ∙ here;
  update_frame = λ w h k other. updated_at-frame (stored w (key_of h)) w h k other;
  update_conflict = λ w h now here set other.
      ap (λ o. stored (updated_at o h w).1 (key_of h)) here
      ∙ updated_at-conflict w h now here set other;
  delete_frame = part-IsStore.delete_frame;
}

web_opts_in : Wants server stored standard_policy web true
unfolding hpa_enabled_for_deployment effective_horizontal_scaling_policy lookup trim_space trim_left
    trim_right is_space parse_bool
web_opts_in = refl

all_opt_in :
    (ds : List Deployment)
    → server.list_deployments "team" taken ≡ ok ds
    → All (OptsInAt server stored standard_policy ("team", "web-pgo-hpa")) ds
all_opt_in ds e =
    let same : web ∷ [] ≡ ds = cc e in
    subst (All (OptsInAt server stored standard_policy ("team", "web-pgo-hpa"))) same
      (inr web_opts_in, tt)

reconcile_deployment_hpas-keeps_example :
    stored (reconcile_deployment_hpas server standard_policy taken).1 ("team", "web-pgo-hpa")
    ≡ some foreign
reconcile_deployment_hpas-keeps_example =
    reconcile_deployment_hpas-keeps server stored server-IsVersioned standard_policy
      ("team", "web-pgo-hpa") foreign taken foreign-is_managed all_opt_in foreign_is_stored
