-- ===== src/Reconcile/Again.antt =====
-- The status of a SecurityBaseline or a TelemetryProfile settles: their Reconcile methods run twice.
use platform_governance_oper.Prelude.{
  String, ◌≡◌, refl, ap, ◌∙◌, inl, inr, Bool, false, none, List, [], ok, err, arith, Result-cases,
  Option-cases, Bool-cases,
}
use platform_governance_oper.Api.{
  ObjectMeta, Condition, SecurityBaseline, SecurityBaselineSpec, TelemetryProfile,
  TelemetryProfileSpec,
}
use platform_governance_oper.Reconcile.{NamespacedName}
use platform_governance_oper.Reconcile.Status.{
  Outcome, available, update_available_status_if_changed, finish, not_read, StatusClient,
  reconcile_baseline, reconcile_profile,
}

-- `meta.SetStatusCondition` reports no change when it sets a condition again, and an object whose
-- status was updated is read back with it. An update of the status subresource ignores what else was
-- changed, so this is for an object with the metadata and the specification that are stored.
pub record IsStatusStore {W Obj Spec : Type 0} (meta_of : Obj → ObjectMeta) (spec_of : Obj → Spec)
    (client : StatusClient W Obj) : Type 0 where
  pub set_again :
      (cs : List Condition) (c : Condition)
      → (client.set_status_condition (client.set_status_condition cs c).0 c).1 ≡ false
  pub reads_back :
      (key : NamespacedName) (w : W) (o o' : Obj)
      → client.get key w ≡ ok o
      → meta_of o' ≡ meta_of o
      → spec_of o' ≡ spec_of o
      → (client.update_status o' w).0 ≡ none
      → client.get key (client.update_status o' w).1 ≡ ok o'

-- What the two methods have in common.
module _ {W Obj : Type 0} (meta_of : Obj → ObjectMeta) (conditions_of : Obj → List Condition)
    (with_conditions : List Condition → Obj → Obj) (message : String) (has_recorder : Bool)
    (client : StatusClient W Obj) where
  abbrev set_available : Obj → List Condition × Bool
  set_available o = client.set_status_condition (conditions_of o) (available (meta_of o) message)

  abbrev marked : Obj → Obj
  marked o = with_conditions (set_available o).0 o

  simple : NamespacedName → W → Outcome W Unit
  simple key w = elim (client.get key w) [
    | err e ↦ not_read e w
    | ok o ↦ finish (
        update_available_status_if_changed has_recorder client.update_status (meta_of o) message
          (λ c.
            let (conditions, changed) = client.set_status_condition (conditions_of o) c in
            (with_conditions conditions o, changed))
          w)
  ]

  -- An object whose condition does not change is left as it is.
  simple_unchanged :
      (key : NamespacedName) (w : W) (o : Obj)
      → client.get key w ≡ ok o
      → (set_available o).1 ≡ false
      → simple key w ≡ record { state = w; events = []; result = ok tt }
  unfolding simple update_available_status_if_changed
  simple_unchanged key w o read same = ground (arith, read, same)

  module _ {Spec : Type 0} (spec_of : Obj → Spec) (store : IsStatusStore meta_of spec_of client)
      (same_spec : (cs : List Condition) (o : Obj) → spec_of (with_conditions cs o) ≡ spec_of o)
      (same_meta : (cs : List Condition) (o : Obj) → meta_of (with_conditions cs o) ≡ meta_of o)
      (now : (cs : List Condition) (o : Obj) → conditions_of (with_conditions cs o) ≡ cs) where
    marked_again : (o : Obj) → (set_available (marked o)).1 ≡ false
    marked_again o =
        let cs = (set_available o).0 in
        let condition : ObjectMeta → Condition = λ m. available m message in
        ap (λ cs. (client.set_status_condition cs (condition (meta_of (marked o)))).1) (now cs o)
        ∙ ap (λ m. (client.set_status_condition cs (condition m)).1) (same_meta cs o)
        ∙ store.set_again (conditions_of o) (condition (meta_of o))

    simple-settles :
        (key : NamespacedName) (w : W)
        → (simple key w).result ≡ ok tt
        → simple key (simple key w).state
          ≡ record { state = (simple key w).state; events = []; result = ok tt }
    unfolding simple update_available_status_if_changed
    simple-settles key w fine = elim (Result-cases (client.get key w)) [
      | inr (e, bad) ↦ ground (arith, bad, fine)
      | inl (o, read) ↦ elim (Bool-cases (set_available o).1) [
        | inr same ↦
            let is = simple_unchanged key w o read same in
            let here : (simple key w).state ≡ w = ap (λ (o : Outcome W Unit). o.state) is in
            rw here is
        | inl changed ↦ elim (Option-cases (client.update_status (marked o) w).0) [
          | inr (e, bad) ↦ absurd (ground (arith, read, changed, bad, fine))
          | inl done ↦
              let w' = (client.update_status (marked o) w).1 in
              let here : (simple key w).state ≡ w' = ground (arith, read, changed, done) in
              let again =
                store.reads_back key w o (marked o) read (same_meta (set_available o).0 o)
                  (same_spec (set_available o).0 o) done in
              rw here (simple_unchanged key w' (marked o) again (marked_again o))
        ]
      ]
    ]

pub data SimpleKind : Type 0 where
  security_baseline : SimpleKind
  telemetry_profile : SimpleKind

abbrev pub Obj : SimpleKind → Type 0
Obj security_baseline = SecurityBaseline
Obj telemetry_profile = TelemetryProfile

abbrev pub meta : (k : SimpleKind) → Obj k → ObjectMeta
meta security_baseline b = b.meta
meta telemetry_profile p = p.meta

abbrev pub Spec : SimpleKind → Type 0
Spec security_baseline = SecurityBaselineSpec
Spec telemetry_profile = TelemetryProfileSpec

abbrev pub spec : (k : SimpleKind) → Obj k → Spec k
spec security_baseline b = b.spec
spec telemetry_profile p = p.spec

-- The Reconcile method of each kind.
abbrev pub reconcile_simple :
    {W : Type 0}
    → (k : SimpleKind) → Bool
    → StatusClient W (Obj k)
    → NamespacedName
    → W
    → Outcome W Unit
reconcile_simple security_baseline = reconcile_baseline
reconcile_simple telemetry_profile = reconcile_profile

-- After a reconcile of a baseline or a profile that reports no error, another one changes nothing,
-- records no event and reports no error, if setting a condition again changes nothing, and if an
-- object whose status was updated, with the metadata and the specification that are stored, is read
-- back with that status.
pub reconcile_simple-settles :
    {W : Type 0} (k : SimpleKind) (has_recorder : Bool) (client : StatusClient W (Obj k))
    (store : IsStatusStore (meta k) (spec k) client) (key : NamespacedName) (w : W)
    → (reconcile_simple k has_recorder client key w).result ≡ ok tt
    → reconcile_simple k has_recorder client key
        (reconcile_simple k has_recorder client key w).state
      ≡ record {
        state = (reconcile_simple k has_recorder client key w).state;
        events = [];
        result = ok tt;
      }
unfolding reconcile_baseline reconcile_profile simple
reconcile_simple-settles security_baseline has_recorder client store key w fine =
    simple-settles (λ (b : SecurityBaseline). b.meta) (λ b. b.status.conditions)
      (λ cs b. record b { status = record { conditions = cs } })
      "SecurityBaseline is available and being enforced" has_recorder client (λ b. b.spec) store
      (λ cs b. refl) (λ cs b. refl) (λ cs b. refl) key w fine
reconcile_simple-settles telemetry_profile has_recorder client store key w fine =
    simple-settles (λ (p : TelemetryProfile). p.meta) (λ p. p.status.conditions)
      (λ cs p. record p { status = record { conditions = cs } })
      "TelemetryProfile is available and being applied" has_recorder client (λ p. p.spec) store
      (λ cs p. refl) (λ cs p. refl) (λ cs p. refl) key w fine
