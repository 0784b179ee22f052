-- ===== src/Hpa/Drift.antt =====
-- `hpaSpecDrifted`: it compares exactly the part of the specification that the operator sets.
use mathlib.Core.Path.{ap₂}
use platform_governance_oper.Prelude.{
  String, ◌≡◌, ◌↔◌, refl, ap, false, ◌||◌, Option, none, some, List, [], ◌∷◌, map, arith, eq_iff,
  eqb_ℤ_iff, or_else, ℤ, pos,
}
use platform_governance_oper.Hpa.{ScaleTargetRef, ResourceMetric, MetricSpec, HpaSpec, Hpa}
use platform_governance_oper.Hpa.Differs.{
  ref_differs, resource_differs, metric_differs, metrics_differ, lengths_differ, hpa_spec_drifted,
}

-- A metric as the operator sees it; a nil utilization reads as 0.
pub record MetricView : Type 0 where
  pub type : String
  pub resource : Option (String × String × ℤ)

-- A specification as the operator sees it; nil minimum replicas read as 0.
pub record SpecView : Type 0 where
  pub scale_target_ref : ScaleTargetRef
  pub min_replicas : ℤ
  pub max_replicas : ℤ
  pub metrics : List MetricView

abbrev pub resource_view : Option ResourceMetric → Option (String × String × ℤ)
resource_view none = none
resource_view (some r) = some (r.name, r.target_type, or_else (pos 0) r.average_utilization)

abbrev pub metric_view : MetricSpec → MetricView
metric_view m = record { type = m.type; resource = resource_view m.resource }

abbrev pub spec_view : HpaSpec → SpecView
spec_view s = record {
  scale_target_ref = s.scale_target_ref;
  min_replicas = or_else (pos 0) s.min_replicas;
  max_replicas = s.max_replicas;
  metrics = map metric_view s.metrics;
}

ref_differs_iff : (a b : ScaleTargetRef) → (ref_differs a b ≡ false) ↔ (a ≡ b)
unfolding ref_differs
ref_differs_iff a b =
    let k = eq_iff a.kind b.kind in
    let n = eq_iff a.name b.name in
    let v = eq_iff a.api_version b.api_version in
    (λ h. ground (arith, k, n, v), λ e. ground (arith, k, n, v))

metric_differs_iff :
    (a b : Option ResourceMetric)
    → (metric_differs a b ≡ false) ↔ (resource_view a ≡ resource_view b)
unfolding metric_differs resource_differs
metric_differs_iff none none = (λ h. refl, λ h. refl)
metric_differs_iff none (some b) = (λ h. cc, λ h. cc)
metric_differs_iff (some a) none = (λ h. cc, λ h. cc)
metric_differs_iff (some a) (some b) =
    let n = eq_iff a.name b.name in
    let t = eq_iff a.target_type b.target_type in
    let u =
      eqb_ℤ_iff (or_else (pos 0) a.average_utilization) (or_else (pos 0) b.average_utilization) in
    (λ h. ground (arith, n, t, u), λ e. ground (arith, n, t, u))

metrics_iff :
    (xs ys : List MetricSpec)
    → ((lengths_differ xs ys || metrics_differ xs ys) ≡ false)
      ↔ (map metric_view xs ≡ map metric_view ys)
unfolding metrics_differ lengths_differ
metrics_iff [] [] = (λ h. refl, λ h. refl)
metrics_iff [] (y ∷ ys) = (λ h. cc, λ h. cc)
metrics_iff (x ∷ xs) [] = (λ h. cc, λ h. cc)
metrics_iff (x ∷ xs) (y ∷ ys) =
    let (to, from) = metrics_iff xs ys in
    let t = eq_iff x.type y.type in
    let (rto, rfrom) = metric_differs_iff x.resource y.resource in
    (
      λ h.
          let same : metric_view x ≡ metric_view y = ground (arith, t, rto (ground arith)) in
          ap₂ ◌∷◌ same (to (ground arith)),
      λ e.
          let same : metric_view x ≡ metric_view y = cc in
          let tails : map metric_view xs ≡ map metric_view ys = cc in
          ground (
            arith,
            t,
            ap (λ (v : MetricView). v.type) same,
            rfrom (ap (λ (v : MetricView). v.resource) same),
            from tails,
          ),
    )

-- Drift is reported exactly when the parts that the operator sets differ: the scale target, the
-- bounds with nil minimum replicas read as 0, and the metrics' types and, where they have one,
-- their resource's name, target type and utilization, with nil read as 0.
pub hpa_spec_drifted-false_iff :
    (existing desired : Hpa)
    → (hpa_spec_drifted existing desired ≡ false)
      ↔ (spec_view existing.spec ≡ spec_view desired.spec)
unfolding hpa_spec_drifted
hpa_spec_drifted-false_iff existing desired =
    let e = existing.spec in
    let d = desired.spec in
    let (rto, rfrom) = ref_differs_iff e.scale_target_ref d.scale_target_ref in
    let (mto, mfrom) = metrics_iff e.metrics d.metrics in
    let most = eqb_ℤ_iff e.max_replicas d.max_replicas in
    let least = eqb_ℤ_iff (or_else (pos 0) e.min_replicas) (or_else (pos 0) d.min_replicas) in
    (
      λ h. ground (
        arith,
        rto (ground arith),
        mto (ground arith),
        most.0 (ground arith),
        least.0 (ground arith),
      ),
      λ v. ground (
        arith,
        rfrom (ap (λ (s : SpecView). s.scale_target_ref) v),
        mfrom (ap (λ (s : SpecView). s.metrics) v),
        most.1 (ap (λ (s : SpecView). s.max_replicas) v),
        least.1 (ap (λ (s : SpecView). s.min_replicas) v),
      ),
    )
