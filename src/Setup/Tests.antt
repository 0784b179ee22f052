-- ===== src/Setup/Tests.antt =====
-- Tests of the set-up: a Deployment of the team changes, where two policies manage autoscalers.
use mathlib.Core.List.{Mem}
use platform_governance_oper.Prelude.{◌≡◌, refl, true, none, List, [], ◌∷◌, ok}
use platform_governance_oper.Api.{WorkloadPolicy}
use platform_governance_oper.Reconcile.{
  Client, consider, beats, highest_of, is_highest_priority_policy,
}
use platform_governance_oper.Reconcile.Memory.{Memory, memory}
use platform_governance_oper.Setup.{requests_for}
use platform_governance_oper.Setup.Watch.{policy_key, requests_for-mem}
use platform_governance_oper.Samples.{standard_policy, urgent_policy}

abbrev policies : List WorkloadPolicy
policies = standard_policy ∷ urgent_policy ∷ []

abbrev server : Client Memory
server = memory policies [] urgent_policy

abbrev empty : Memory
empty = λ _. none

is_highest : is_highest_priority_policy server urgent_policy empty ≡ ok true
unfolding is_highest_priority_policy highest_of consider beats
is_highest = refl

requests_both : requests_for server "team" empty ≡ ("team", "standard") ∷ ("team", "urgent") ∷ []
unfolding requests_for
requests_both = refl

requests_for-mem_example : Mem (policy_key urgent_policy) (requests_for server "team" empty)
requests_for-mem_example =
    requests_for-mem server urgent_policy empty policies refl (refl, (refl, tt)) is_highest
