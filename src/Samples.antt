-- ===== src/Samples.antt =====
-- Concrete resources, pods and collaborators for the tests.
use platform_governance_oper.Prelude.{
  ℕ, String, ltb, ◌==◌, true, false, Option, none, some, [], ◌∷◌, if◌then◌else◌, ok, ℤ, pos,
  insertion_sort, Entries,
}
use platform_governance_oper.Api.{
  ObjectMeta, HorizontalScalingPolicy, WorkloadPolicy, TelemetryProfile, SecurityBaseline,
}
use platform_governance_oper.Kube.{Container, Pod, Request}
use platform_governance_oper.Validator.{PodValidator}
use platform_governance_oper.Mutator.{PodMutator}
use platform_governance_oper.Setup.{Manager}
use platform_governance_oper.PolicyWebhook.{Parsers}

abbrev pub meta : String → ObjectMeta
meta name = record { name = name; namespace = "team"; uid = "u1"; generation = pos 1 }

-- Two quantities parse.
abbrev pub parse_quantity : String → Option ℕ
parse_quantity s = if s == "100m" then some 100 else if s == "128Mi" then some 134217728 else none

abbrev pub scaling : HorizontalScalingPolicy
scaling = record {
  enabled_by_default = false;
  min_replicas = pos 2;
  max_replicas = pos 10;
  target_cpu_utilization_percentage = pos 80;
}

abbrev pub policy_with : String → Entries String → Entries String → ℤ → WorkloadPolicy
policy_with name requests labels priority = record {
  meta = meta name;
  spec = record {
    default_requests = some requests;
    default_limits = none;
    mandatory_labels = some labels;
    priority = priority;
    horizontal_scaling = some scaling;
  };
  status = record { conditions = [] };
}

abbrev pub standard_policy : WorkloadPolicy
standard_policy =
    policy_with "standard" (("cpu", "100m") ∷ ("memory", "128Mi") ∷ [])
      (("cost-center", "shared") ∷ ("owner", "platform") ∷ []) (pos 1)

abbrev pub urgent_policy : WorkloadPolicy
urgent_policy = policy_with "urgent" [] (("cost-center", "urgent") ∷ []) (pos 5)

-- Its quantity does not parse.
abbrev pub broken_policy : WorkloadPolicy
broken_policy = policy_with "broken" (("cpu", "lots") ∷ []) (("cost-center", "lost") ∷ []) (pos 0)

abbrev pub profile : TelemetryProfile
profile = record {
  meta = meta "tracing";
  spec = record {
    tracing_endpoint = "http://otel:4317";
    inject_env_vars = true;
    sampling_rate = "0.5";
    priority = pos 0;
  };
  status = record { conditions = [] };
}

abbrev pub baseline : SecurityBaseline
baseline = record {
  meta = meta "baseline";
  spec = record {
    run_as_non_root = true;
    read_only_root_filesystem = true;
    excluded_namespaces = "kube-system" ∷ [];
  };
  status = record { conditions = [] };
}

abbrev pub container : Container ℕ
container = record {
  name = "app";
  env = [];
  requests = none;
  limits = none;
  security_context =
      some (record { run_as_non_root = none; read_only_root_filesystem = some true });
}

abbrev pub pod : Pod ℕ
pod = record {
  name = "my-app";
  namespace = "team";
  labels = none;
  security_context = some (record { run_as_non_root = some true });
  containers = container ∷ [];
  init_containers = [];
}

-- The same pod with no security context.
abbrev pub root_pod : Pod ℕ
root_pod = record pod { security_context = none }

-- A serialised object stands for itself.
abbrev pub request : Pod ℕ → Request (Pod ℕ)
request p = record { namespace = "team"; object_raw = p }

abbrev pub validator : PodValidator ℕ (Pod ℕ)
validator = record {
  decoder = some (λ req. ok req.object_raw);
  list_baselines = λ _. ok (baseline ∷ []);
}

abbrev pub mutator : PodMutator ℕ (Pod ℕ)
mutator = record {
  decoder = some (λ req. ok req.object_raw);
  list_policies = λ _. ok (standard_policy ∷ urgent_policy ∷ []);
  list_profiles = λ _. ok (profile ∷ []);
  marshal = λ p. ok p;
  parse_quantity = parse_quantity;
  sort_policies = insertion_sort;
  sort_profiles = insertion_sort;
}

-- One endpoint and one rate parse; a rate is in thousandths.
abbrev pub parsers : Parsers ℕ
parsers = record {
  parse_request_uri =
      λ s. if s == "http://otel:4317" then some (record { scheme = "http" }) else none;
  parse_float = λ s. if s == "0.5" then some 500 else none;
  float_lt = ltb;
  float_zero = 0;
  float_one = 1000;
}

-- A manager that takes every registration, and whose client lists nothing.
abbrev pub manager : Manager ℕ (Pod ℕ)
manager = record {
  refuses = λ _ _. none;
  new_decoder = λ req. ok req.object_raw;
  list_baselines = λ _. ok [];
  list_policies = λ _. ok [];
  list_profiles = λ _. ok [];
  marshal = ok;
  parse_quantity = parse_quantity;
  sort_policies = insertion_sort;
  sort_profiles = insertion_sort;
}
