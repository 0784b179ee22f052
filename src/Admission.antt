-- ===== src/Admission.antt =====
-- How the webhooks work together: the pod that the mutating webhook (pod_mutating_webhook.go) leaves
-- is the one that the validating webhook (pod_webhook.go) judges, and both rely on what the webhooks
-- of the custom resources let through.
pub mod Bare
pub mod Verdict
pub mod Endpoints
mod Tests
