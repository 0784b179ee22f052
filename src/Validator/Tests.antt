-- ===== src/Validator/Tests.antt =====
-- Tests of the validating webhook.
use platform_governance_oper.Prelude.{ℕ, ◌≡◌, ◌↔◌, refl, [], ◌∷◌, List}
use platform_governance_oper.Api.{SecurityBaseline}
use platform_governance_oper.Kube.{Pod, allowed, denied}
use platform_governance_oper.Validator.{
  must_run_as_non_root, violation, some_writable, has_writable_root, may_run_as_root,
  check_baselines, handle,
}
use platform_governance_oper.Validator.Verdict.{CompliesWithAll, IsDenial}
use platform_governance_oper.Validator.Handle.{
  IsRead, handle-allowed_iff, handle-denied, all_as_root, check_baselines-all_as_root,
}
use platform_governance_oper.Samples.{pod, root_pod, request, validator, baseline}

admits_compliant_pod : (handle validator (request pod)).0 ≡ allowed ""
unfolding handle check_baselines violation some_writable has_writable_root may_run_as_root
admits_compliant_pod = refl

denies_root_pod : (handle validator (request root_pod)).0 ≡ denied must_run_as_non_root
unfolding handle check_baselines violation some_writable has_writable_root may_run_as_root
denies_root_pod = refl

handle-allowed_iff_example : ((handle validator (request pod)).0 ≡ allowed "") ↔ (
    (p : Pod ℕ) × (bs : List SecurityBaseline) × IsRead validator (request pod) p bs
    × CompliesWithAll p "team" bs)
handle-allowed_iff_example = handle-allowed_iff validator (request pod)

handle-denied_example :
    (p : Pod ℕ) × (bs : List SecurityBaseline) × IsRead validator (request root_pod) p bs
    × IsDenial p "team" bs must_run_as_non_root (handle validator (request root_pod)).1
handle-denied_example =
    handle-denied validator (request root_pod) must_run_as_non_root denies_root_pod

two_baselines : (check_baselines {Raw = Pod ℕ} pod "team" (baseline ∷ baseline ∷ [])).0 ≡ allowed ""
unfolding check_baselines violation some_writable has_writable_root may_run_as_root
two_baselines = refl

check_baselines-all_as_root_example :
    check_baselines {Raw = Pod ℕ} (all_as_root pod) "team" (baseline ∷ [])
    ≡ check_baselines {Raw = Pod ℕ} pod "team" (baseline ∷ [])
check_baselines-all_as_root_example = check_baselines-all_as_root "team" pod (baseline ∷ [])
