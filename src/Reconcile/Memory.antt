-- ===== src/Reconcile/Memory.antt =====
-- An API server for the tests: its autoscalers are a function of their keys, its policies and
-- Deployments do not change, and its writes always succeed. It keeps the laws of `IsStore`.
use platform_governance_oper.Prelude.{
  ◌==◌, ◌≡◌, ◌≢◌, refl, sym, ap, ◌∙◌, inl, inr, Bool, true, false, ◌&&◌, Option, none, some, List,
  Result, ok, err, arith, Bool-cases, if◌then◌else◌, eq_iff,
}
use platform_governance_oper.Api.{WorkloadPolicy}
use platform_governance_oper.Kube.{Error, not_found}
use platform_governance_oper.Hpa.{Deployment, Hpa}
use platform_governance_oper.Reconcile.{NamespacedName, Client}
use platform_governance_oper.Reconcile.Steps.{IsStore, IsSavedAs, key_of}

abbrev pub same_key : NamespacedName → NamespacedName → Bool
same_key j k = j.0 == k.0 && j.1 == k.1

pub same_key-eq : (j k : NamespacedName) → same_key j k ≡ true → j ≡ k
same_key-eq j k h =
    let namespaces : j.0 ≡ k.0 = (eq_iff j.0 k.0).0 (ground arith) in
    let names : j.1 ≡ k.1 = (eq_iff j.1 k.1).0 (ground arith) in λ i. (namespaces i, names i)

same_key_self : (k : NamespacedName) → same_key k k ≡ true
same_key_self k = ground (arith, eq_iff k.0 k.0, eq_iff k.1 k.1)

same_key-neq : (j k : NamespacedName) → k ≢ j → same_key j k ≡ false
same_key-neq j k other = elim (Bool-cases (same_key j k)) [
  | inr off ↦ off
  | inl on ↦ absurd (other (sym (same_key-eq j k on)))
]

abbrev pub Memory : Type 0
Memory = NamespacedName → Option Hpa

abbrev at_key : NamespacedName → Option Hpa → Option Hpa
at_key k none = none
at_key k (some h) = if same_key (key_of h) k then some h else none

abbrev pub stored : Memory → NamespacedName → Option Hpa
stored w k = at_key k (w k)

abbrev write : NamespacedName → Option Hpa → Memory → Memory
write j o w = λ k. if same_key j k then o else w k

abbrev get : NamespacedName → Option Hpa → Result Error Hpa
get k none = err not_found
get k (some h) = ok h

abbrev pub memory : List WorkloadPolicy → List Deployment → WorkloadPolicy → Client Memory
memory policies deployments policy = record {
  get_policy = λ _ _. ok policy;
  list_policies = λ _ _. ok policies;
  list_deployments = λ _ _. ok deployments;
  get_hpa = λ k w. get k (stored w k);
  create_hpa = λ h w. (none, write (key_of h) (some h) w);
  update_hpa = λ h w. (none, write (key_of h) (some h) w);
  delete_hpa = λ h w. (none, write (key_of h) none w);
  update_policy_status = λ _ w. (none, w);
  set_status_condition = λ cs c. (cs, true);
}

write-other :
    (w : Memory) (h : Hpa) (o : Option Hpa) (k : NamespacedName)
    → k ≢ key_of h
    → stored (write (key_of h) o w) k ≡ stored w k
write-other w h o k other = rw (same_key-neq (key_of h) k other) refl

write-same :
    (w : Memory) (h : Hpa)
    → (saved : Hpa) × (stored (write (key_of h) (some h) w) (key_of h) ≡ some saved)
      × IsSavedAs h saved
write-same w h = (
  h,
  rw (same_key_self (key_of h)) (rw (same_key_self (key_of h)) refl),
  record { labels = refl; view = refl },
)

at_key-keyed : (k : NamespacedName) (o : Option Hpa) (h : Hpa) → at_key k o ≡ some h → key_of h ≡ k
at_key-keyed k none h e = absurd cc
at_key-keyed k (some x) h e = elim (Bool-cases (same_key (key_of x) k)) [
  | inr off ↦ absurd (ground (arith, off, e))
  | inl on ↦
      let same : x ≡ h = ground (arith, on, e) in ap key_of (sym same) ∙ same_key-eq (key_of x) k on
]

get-found : (k : NamespacedName) (o : Option Hpa) (h : Hpa) → get k o ≡ ok h → o ≡ some h
get-found k none h e = absurd cc
get-found k (some x) h e = ground arith

get-missing : (k : NamespacedName) (o : Option Hpa) (e : Error) → get k o ≡ err e → o ≡ none
get-missing k none e h = refl
get-missing k (some x) e h = absurd cc

pub memory-IsStore :
    (policies : List WorkloadPolicy) (deployments : List Deployment) (policy : WorkloadPolicy)
    → IsStore (memory policies deployments policy) stored
memory-IsStore policies deployments policy = record {
  keyed = λ w k h e. at_key-keyed k (w k) h e;
  found = λ w k h e. get-found k (stored w k) h e;
  missing = λ w k e h _. get-missing k (stored w k) e h;
  create_frame = λ w h k other. write-other w h (some h) k other;
  created = λ w h _. write-same w h;
  update_frame = λ w h k other. write-other w h (some h) k other;
  updated = λ w h _. write-same w h;
  delete_frame = λ w h k other. write-other w h none k other;
  deleted = λ w h _. rw (same_key_self (key_of h)) refl;
}
