-- ===== src/Kube.antt =====
-- The Kubernetes objects that internal/webhook/core reads and writes, with the fields that it
-- uses, and what a webhook gives back: the response and the events. `Q` stands for the parsed
-- resource quantities and `Raw` for the serialised objects, whose code is not in the repository.
use platform_governance_oper.Prelude.{ℕ, String, Bool, Option, List, GoMap}
use platform_governance_oper.Api.{ObjectMeta}

pub record EnvVar : Type 0 where
  pub name : String
  pub value : String

-- The container's own `run_as_non_root` is read by no webhook; Kubernetes lets it override the
-- pod's.
pub record SecurityContext : Type 0 where
  pub run_as_non_root : Option Bool
  pub read_only_root_filesystem : Option Bool

pub record PodSecurityContext : Type 0 where
  pub run_as_non_root : Option Bool

pub record Container (Q : Type 0) : Type 0 where
  pub name : String
  pub env : List EnvVar
  pub requests : GoMap Q
  pub limits : GoMap Q
  pub security_context : Option SecurityContext

pub record Pod (Q : Type 0) : Type 0 where
  pub name : String
  pub namespace : String
  pub labels : GoMap String
  pub security_context : Option PodSecurityContext
  pub containers : List (Container Q)
  pub init_containers : List (Container Q)

-- Errors. `not_found` and `failure` come from the API server and the libraries; the others are
-- the `fmt.Errorf` calls of the operator, with the arguments of each.
pub data Error : Type 0 where
  not_found : Error
  failure : String → Error
  decoder_not_initialized : Error
  invalid_default_requests : (policy resource value : String) → Error
  invalid_default_limits : (policy resource value : String) → Error
  invalid_hpa_annotation : (namespace name value : String) → Error
  hpa_not_managed : (namespace name : String) → Error

pub record Request (Raw : Type 0) : Type 0 where
  pub namespace : String
  pub object_raw : Raw

-- `admission.Errored`, `Denied`, `Allowed` and `PatchResponseFromRaw`, with their arguments.
pub data Response (Raw : Type 0) : Type 0 where
  errored : (code : ℕ) → Error → Response Raw
  denied : String → Response Raw
  allowed : String → Response Raw
  patched : (original current : Raw) → Response Raw

-- `http.StatusInternalServerError` and `http.StatusBadRequest`
abbrev pub internal_server_error : ℕ
internal_server_error = 500

abbrev pub bad_request : ℕ
bad_request = 400

-- One call of `Recorder.Event`, with the object that it is about.
pub record Event : Type 0 where
  pub about : ObjectMeta
  pub event_type : String
  pub reason : String
  pub message : String

-- The pod, whether it was mutated, and the events recorded.
pub record Progress (Q : Type 0) : Type 0 where
  pub pod : Pod Q
  pub mutated : Bool
  pub events : List Event
