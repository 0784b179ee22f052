-- ===== src/Cluster/Foreign.antt =====
-- Autoscalers of other tools, in every interleaving of reconciles.
use platform_governance_oper.Prelude.{String, ◌≡◌, ap, ◌∙◌, false, Option, some}
use platform_governance_oper.Hpa.{Hpa, is_managed_hpa}
use platform_governance_oper.Reconcile.{NamespacedName, Client, reconcile_deployment}
use platform_governance_oper.Reconcile.Steps.{IsStore, reconcile_deployment-Step}
use platform_governance_oper.Reconcile.Rounds.{Step-foreign}
use platform_governance_oper.Cluster.{
  Cluster, Step, created, updated, deleted, began, went_on, interfered, Reach, start, then,
}

module _ {W Q : Type 0} (client : Client W) (stored : W → NamespacedName → Option Hpa)
    (parse_quantity : String → Option Q) where
  -- If others change autoscalers in this step, not the one at the key.
  abbrev pub Spares :
      NamespacedName → {c c' : Cluster W} → Step client stored parse_quantity c c' → Type 0
  Spares k (created obj valid is) = Unit
  Spares k (updated before after old obj at valid is) = Unit
  Spares k (deleted before after old at is) = Unit
  Spares k (began before after policy ds at scaling is) = Unit
  Spares k (went_on before after policy d ds at is) = Unit
  Spares k {c} (interfered w keeps is) = stored w k ≡ stored c.world k

  abbrev pub AllSpare :
      NamespacedName → {c c' : Cluster W} → Reach client stored parse_quantity c c' → Type 0
  AllSpare k start = Unit
  AllSpare k (then r step) = AllSpare k r × Spares k step

  module _ (store : IsStore client stored) (k : NamespacedName) (x : Hpa)
      (foreign : is_managed_hpa (some x) ≡ false) where
    Step-keeps :
        (c c' : Cluster W) (step : Step client stored parse_quantity c c')
        → Spares k step
        → stored c.world k ≡ some x
        → stored c'.world k ≡ some x
    Step-keeps c c' (created obj valid is) spared here =
        ap (λ (c : Cluster W). stored c.world k) is ∙ here
    Step-keeps c c' (updated before after old obj at valid is) spared here =
        ap (λ (c : Cluster W). stored c.world k) is ∙ here
    Step-keeps c c' (deleted before after old at is) spared here =
        ap (λ (c : Cluster W). stored c.world k) is ∙ here
    Step-keeps c c' (began before after policy ds at scaling is) spared here =
        ap (λ (c : Cluster W). stored c.world k) is ∙ here
    Step-keeps c c' (went_on before after policy d ds at is) spared here =
        ap (λ (c : Cluster W). stored c.world k) is
        ∙ Step-foreign client stored policy store d c.world k x
            (reconcile_deployment client policy d c.world) here foreign
            (reconcile_deployment-Step client policy d c.world)
    Step-keeps c c' (interfered w keeps is) spared here =
        ap (λ (c : Cluster W). stored c.world k) is ∙ spared ∙ here

    -- However reconciles of any policies interleave with each other and with changes of policies,
    -- the operator leaves an autoscaler alone that is not labelled as managed, as long as others do,
    -- too. This is for a client that reads and writes without delay.
    pub Reach-foreign :
        {c c' : Cluster W} (r : Reach client stored parse_quantity c c')
        → AllSpare k r
        → stored c.world k ≡ some x
        → stored c'.world k ≡ some x
    Reach-foreign start spared here = here
    Reach-foreign {c' = c'} (then r step) (before, spared) here =
        Step-keeps _ c' step spared (Reach-foreign r before here)
