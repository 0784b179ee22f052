-- ===== src/Reconcile/Status.antt =====
-- internal/controller: `updateAvailableStatusIfChanged` (reconcile_status_helper.go) and the
-- Reconcile methods of the three controllers.
use platform_governance_oper.Prelude.{
  String, Bool, true, false, Option, none, some, List, [], ◌∷◌, if◌then◌else◌, Result, ok, err,
}
use platform_governance_oper.Api.{
  ObjectMeta, Condition, WorkloadPolicy, TelemetryProfile, SecurityBaseline,
}
use platform_governance_oper.Kube.{Error, Event}
use platform_governance_oper.Reconcile.{
  NamespacedName, ignore_not_found, Client, scales, is_highest_priority_policy,
  reconcile_deployment_hpas,
}

-- What a reconcile gives back: the state after it, the events it recorded, and its result.
pub record Outcome (W A : Type 0) : Type 0 where
  pub state : W
  pub events : List Event
  pub result : Result Error A

-- The fields of `metav1.Condition` that `updateAvailableStatusIfChanged` sets.
abbrev pub available : ObjectMeta → String → Condition
available meta message = record {
  type = "Available";
  status = "True";
  reason = "Reconciled";
  message = message;
  observed_generation = meta.generation;
}

abbrev pub reconciled_event : ObjectMeta → String → Event
reconciled_event meta message = record {
  about = meta;
  event_type = "Normal";
  reason = "Reconciled";
  message = message;
}

module _ {W Obj : Type 0} (has_recorder : Bool) (update_status : Obj → W → Option Error × W) where
  -- `updateAvailableStatusIfChanged`, given the conditions of the object and what
  -- `meta.SetStatusCondition` makes of them: the object with the new ones and whether they changed.
  unfoldable pub update_available_status_if_changed :
      ObjectMeta → String → (Condition → Obj × Bool) → W → Outcome W Bool
  update_available_status_if_changed meta message set w =
      let (obj, changed) = set (available meta message) in
      if changed
      then (let (e, w') = update_status obj w in
          elim e [
            | some e ↦ record { state = w'; events = []; result = err e }
            | none ↦ record {
              state = w';
              events = if has_recorder then reconciled_event meta message ∷ [] else [];
              result = ok true;
            }
          ])
      else record { state = w; events = []; result = ok false }

-- `ctrl.Result{}` and the error of a Reconcile method: `ok` is no error.
abbrev pub finish : {W : Type 0} → Outcome W Bool → Outcome W Unit
finish o = record {
  state = o.state;
  events = o.events;
  result = elim o.result [ ok _ ↦ ok tt | err e ↦ err e ];
}

-- What Reconcile gives back where `Get` fails: no error if there is no such object.
abbrev pub not_read : {W : Type 0} → Error → W → Outcome W Unit
not_read e w = record {
  state = w;
  events = [];
  result = elim (ignore_not_found e) [ none ↦ ok tt | some e ↦ err e ];
}

-- `statusWriter.Update` and `Get` for the objects of a simple reconciler.
pub record StatusClient (W Obj : Type 0) : Type 0 where
  pub get : NamespacedName → W → Result Error Obj
  pub update_status : Obj → W → Option Error × W
  pub set_status_condition : List Condition → Condition → List Condition × Bool

module _ {W : Type 0} (has_recorder : Bool) where
  -- `WorkloadPolicyReconciler.Reconcile` past the HPAs: the status.
  unfoldable pub reconcile_status : Client W → WorkloadPolicy → W → Outcome W Unit
  reconcile_status client policy w = finish (
      update_available_status_if_changed has_recorder client.update_policy_status policy.meta
        "WorkloadPolicy is available and being enforced"
        (λ c.
          let (conditions, changed) = client.set_status_condition policy.status.conditions c in
          (record policy { status = record { conditions = conditions } }, changed))
        w)

  -- `WorkloadPolicyReconciler.Reconcile`
  unfoldable pub reconcile : Client W → NamespacedName → W → Outcome W Unit
  reconcile client key w = elim (client.get_policy key w) [
    | err e ↦ not_read e w
    | ok policy ↦
        if scales policy
        then (elim (is_highest_priority_policy client policy w) [
          | err e ↦ record { state = w; events = []; result = err e }
          | ok false ↦ reconcile_status client policy w
          | ok true ↦
              (let (e, w') = reconcile_deployment_hpas client policy w in
                elim e [
                  | some e ↦ record { state = w'; events = []; result = err e }
                  | none ↦ reconcile_status client policy w'
                ])
        ])
        else reconcile_status client policy w
  ]

  -- `SecurityBaselineReconciler.Reconcile`
  unfoldable pub reconcile_baseline :
      StatusClient W SecurityBaseline → NamespacedName → W → Outcome W Unit
  reconcile_baseline client key w = elim (client.get key w) [
    | err e ↦ not_read e w
    | ok baseline ↦ finish (
        update_available_status_if_changed has_recorder client.update_status baseline.meta
          "SecurityBaseline is available and being enforced"
          (λ c.
            let (conditions, changed) = client.set_status_condition baseline.status.conditions c in
            (record baseline { status = record { conditions = conditions } }, changed))
          w)
  ]

  -- `TelemetryProfileReconciler.Reconcile`
  unfoldable pub reconcile_profile :
      StatusClient W TelemetryProfile → NamespacedName → W → Outcome W Unit
  reconcile_profile client key w = elim (client.get key w) [
    | err e ↦ not_read e w
    | ok profile ↦ finish (
        update_available_status_if_changed has_recorder client.update_status profile.meta
          "TelemetryProfile is available and being applied"
          (λ c.
            let (conditions, changed) = client.set_status_condition profile.status.conditions c in
            (record profile { status = record { conditions = conditions } }, changed))
          w)
  ]
