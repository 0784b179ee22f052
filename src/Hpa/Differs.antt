-- ===== src/Hpa/Differs.antt =====
-- `hpaSpecDrifted` of internal/controller/workloadpolicy_controller.go: how the operator tells that
-- the HorizontalPodAutoscaler it finds differs from the one it wants.
use platform_governance_oper.Prelude.{
  ◌==◌, Bool, true, false, not, ◌||◌, Option, none, some, List, [], ◌∷◌, if◌then◌else◌, or_else,
  pos, eqb_ℤ,
}
use platform_governance_oper.Hpa.{ScaleTargetRef, ResourceMetric, MetricSpec, Hpa}

-- `!=` on the struct `CrossVersionObjectReference`
unfoldable pub ref_differs : ScaleTargetRef → ScaleTargetRef → Bool
ref_differs a b =
    not (a.kind == b.kind) || not (a.name == b.name) || not (a.api_version == b.api_version)

-- The end of the loop body over metrics, where both have a resource.
unfoldable pub resource_differs : ResourceMetric → ResourceMetric → Bool
resource_differs em dm =
    not (em.name == dm.name)
    || not (em.target_type == dm.target_type)
    || not (eqb_ℤ (or_else (pos 0) em.average_utilization) (or_else (pos 0) dm.average_utilization))

-- The loop body over metrics. Of two pointers one of which is nil, `!=` says whether the other is
-- not nil.
unfoldable pub metric_differs : Option ResourceMetric → Option ResourceMetric → Bool
metric_differs none none = false
metric_differs none (some _) = true
metric_differs (some _) none = true
metric_differs (some em) (some dm) = resource_differs em dm

-- The loop over the desired metrics, whose index runs off the existing ones where these end.
unfoldable pub metrics_differ : List MetricSpec → List MetricSpec → Bool
metrics_differ existing [] = false
metrics_differ [] (dm ∷ desired) = true
metrics_differ (em ∷ existing) (dm ∷ desired) =
    let rest = metrics_differ existing desired in
    if not (em.type == dm.type)
    then true
    else if metric_differs em.resource dm.resource
    then true
    else rest

-- `len(a) != len(b)`
unfoldable pub lengths_differ : List MetricSpec → List MetricSpec → Bool
lengths_differ [] [] = false
lengths_differ [] (_ ∷ _) = true
lengths_differ (_ ∷ _) [] = true
lengths_differ (_ ∷ xs) (_ ∷ ys) = lengths_differ xs ys

-- `hpaSpecDrifted`
unfoldable pub hpa_spec_drifted : Hpa → Hpa → Bool
hpa_spec_drifted existing desired =
    if ref_differs existing.spec.scale_target_ref desired.spec.scale_target_ref
    then true
    else if not (eqb_ℤ existing.spec.max_replicas desired.spec.max_replicas)
    then true
    else if not (
        eqb_ℤ (or_else (pos 0) existing.spec.min_replicas)
          (or_else (pos 0) desired.spec.min_replicas))
    then true
    else if lengths_differ existing.spec.metrics desired.spec.metrics
    then true
    else metrics_differ existing.spec.metrics desired.spec.metrics
