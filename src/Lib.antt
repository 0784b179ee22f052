-- ===== src/Lib.antt =====
-- Verification of the platform governance operator, a Kubernetes operator with three custom
-- resources: WorkloadPolicy (default labels, resources and autoscaling), TelemetryProfile
-- (environment variables for tracing) and SecurityBaseline (what a Pod must satisfy).
--
-- The parts of the program and the files that model them:
-- * api/v1alpha1/*_types.go, the custom resources: Api. A pointer is an Option, a Go map is a
--   GoMap (Prelude/Maps): nil, or a list of entries in the order in which `range` visits them.
-- * Of the Kubernetes objects, the fields that the operator reads or writes, and the admission
--   responses and events: Kube.
-- * internal/webhook/core/pod_webhook.go, the validating webhook for Pods: Validator. Its
--   `handle` is PodValidator.Handle, `check_baselines` the loop over baselines, `violation`
--   the body of that loop.
-- * internal/webhook/core/pod_mutating_webhook.go, the mutating webhook for Pods: Telemetry
--   (applyTelemetry, containerHasEnvVar), Defaults (applyPolicyLabels, applyPolicyResources)
--   and Mutator (the two sort functions and PodMutator.Handle). `mutate` is what Handle does
--   to the pod between the list calls and the response. What Go changes in place, a function
--   returns; Progress (Kube) carries the pod, the flag `mutated` and the events through loops.
-- * internal/webhook/v1alpha1/*_webhook.go, the defaulting and validating webhooks of the
--   custom resources: PolicyWebhook.
-- * internal/controller/workloadpolicy_controller.go, the functions on autoscalers: Hpa
--   (effectiveHorizontalScalingPolicy, managedHPAName, hpaEnabledForDeployment,
--   desiredHPAForDeployment, isManagedHPA, ensureManagedHPAMetadata), with
--   hpaSpecDrifted in Hpa/Differs.
-- * internal/controller, the reconcilers: Reconcile (isHighestPriorityPolicy as
--   `is_highest_priority_policy`, reconcileDeploymentHPAs as `reconcile_deployment_hpas`, its
--   loop body as `reconcile_deployment`) and Reconcile/Status (updateAvailableStatusIfChanged
--   and the three Reconcile methods). The state of the API server is a type of its own; a call
--   that writes takes it and gives its error, if any, with the state after it.
-- * `SetupWithManager` of the controllers and `Setup…WebhookWithManager` of the webhooks, with
--   the map from a Deployment to reconcile requests: Setup.
-- * The process, cmd/main.go: Operator. `main` goes from the flags and ENABLE_WEBHOOKS to the
--   exit code; a call that may fail gives a Result, and `>>=` is its early exit.
-- * api/v1alpha1/groupversion_info.go and the `init` functions: Scheme. A type is its kind,
--   and a panic is `none`.
-- * The deep copies, api/v1alpha1/zz_generated.deepcopy.go: DeepCopy, over a heap of its own
--   in which a struct holds addresses; DeepCopy/Functions has each function by its name.
-- The parts share the custom resources. The webhooks of the custom resources decide which
-- policies exist, the Pod webhooks read them through the client's list calls, and the
-- controller reads the same scaling policy as the defaulting webhook fills in. Two modules
-- compose the parts and model no code of their own. Admission has the mutating webhook for
-- Pods followed by the validating one. Cluster has users who change policies through their
-- webhooks, reconciles under way that go round by round, and others who change autoscalers, as
-- a step relation on the state of the API server: each interleaving is a sequence of steps.
-- Cluster/Admitted puts both Pod webhooks into such a cluster. Reconcile/Requests has the requests
-- that one worker of the WorkloadPolicy controller handles in turn.
-- IsAtomic speaks of writes only, so what rests on it alone covers reads from a stale cache.
--
-- Prelude holds the shared names and its children the shared helpers: Tests (Boolean tests,
-- results), Lists, Maps, Int (int32 values as integers; the code only compares them), Text
-- (TrimSpace, ParseBool) and Sorting (what sort.Slice promises, and a sort that keeps it).
-- Samples holds concrete resources for the Tests modules of the parts.
--
-- Parameters, which stand for code that is not in the repository: the admission decoder, the
-- client's list calls, json.Marshal (with IsCodec or ReadsBack on the two, where a result needs it),
-- resource.ParseQuantity, sort.Slice (with the promise IsSliceSort where a result needs it),
-- url.ParseRequestURI, strconv.ParseFloat with the type and the order of its floats, the
-- client of the controllers (with the laws IsStore and IsAtomic on its reads and writes of
-- autoscalers, StatusApart, IsStatusStore, IsPolicyStore and IsApiServer, where a result needs them; an
-- in-memory server in Reconcile/Memory keeps IsStore), meta.SetStatusCondition, and the
-- manager of controller-runtime (Manager and Runtime: which registrations it takes, and how
-- its making and its run end), and the scheme with its builder (Library, with the laws
-- IsLibrary). All loops run over lists, so no fuel is needed.
--
-- Not modelled: logging; the parsing of the command line; a nil event recorder in the
-- webhooks; how a cache falls behind the API server (a client's reads may differ from what is
-- stored, as in Reconcile/Conflict, which asks for IsVersioned in place of IsStore); the new order
-- that Go takes for each range over a map (here the entries of a map have one order, which only
-- matters to what a default that does not parse leaves written); test/utils, helpers of the
-- end-to-end tests; of the deep copies, those of the metadata and the conditions, which are
-- library code and taken as values. The message of an error is its constructor with the
-- arguments of the format.
mod Prelude
pub mod Api
pub mod Kube
pub mod Validator
pub mod Telemetry
pub mod Defaults
pub mod Mutator
pub mod PolicyWebhook
pub mod Hpa
pub mod Reconcile
pub mod Admission
pub mod Setup
pub mod Operator
pub mod Scheme
pub mod Cluster
pub mod DeepCopy
mod Samples
