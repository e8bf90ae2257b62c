-- ===== src/Sidecar/Examples.antt =====
-- The sidecar mutator of pkg/sidecar on a small pod.
use opentelemetry_operator.Prelude.{String, [], ◌∷◌, none, false, ◌≡◌, refl, equal_fold}
use opentelemetry_operator.GoMap.{get, read}
use opentelemetry_operator.Kube.{Container, Pod, Namespace}
use opentelemetry_operator.Sidecar.Mutator.{
  ok, Collector, Client, Builder, annotation_value, named_sidecar, exists_in, remove,
  sidecar_container, sidecar_config, with_sidecar, add, sidecars, only, select_collector_instance,
  get_collector_instance, inject, mutate,
}
use opentelemetry_operator.Prometheus.Replace.{replace_config}
use opentelemetry_operator.Sidecar.Mutator.Idempotent.{mutate_idem}

abbrev container : String → Container
container name = record {
  name = name;
  image = "image:1";
  command = [];
  args = [];
  env = [];
  volume_mounts = [];
  resources = record { limits = none; requests = none };
  security_context = none;
}

abbrev pod : Pod
pod = record {
  name = "pod";
  namespace = "ns";
  uid = "u";
  labels = [];
  annotations = ("sidecar.opentelemetry.io/inject", "true") ∷ [];
  owner_references = [];
  node_name = "";
  share_process_namespace = none;
  containers = container "app" ∷ [];
  init_containers = [];
  volumes = [];
}

abbrev namespace : Namespace
namespace = record { name = "ns"; annotations = [] }

abbrev otelcol : Collector
otelcol = record {
  name = "otel";
  namespace = "ns";
  mode = "sidecar";
  volumes = [];
  config = "receivers:";
  target_allocator_enabled = false;
}

abbrev client : Client
client = record {
  get_collector = λ ns name. ok otelcol;
  list_collectors = λ ns. ok (otelcol ∷ []);
  get_replica_set = λ ns name. none;
  get_deployment = λ ns name. none;
}

abbrev builder : Builder
builder = record {
  yaml = record {
    parse = λ text. none;
    marshal = λ m. none;
    format_d = λ v. "";
    format_s = λ v. "";
  };
  marshal_error = "yaml: unsupported";
  rewrite_enabled = false;
  text = λ bs. "otel";
  to_lower = λ x. x;
  container = λ c. container "otc-container";
  container-name = λ c. refl;
}

-- The pod that Mutate returns.
injected : Pod
injected = (mutate builder client namespace pod).0

mutated : mutate builder client namespace pod ≡ (injected, none)
unfolding injected mutate annotation_value get read equal_fold remove exists_in named_sidecar
    get_collector_instance select_collector_instance sidecars only inject add with_sidecar
    sidecar_container sidecar_config replace_config
mutated = refl

mutate_idem_example : mutate builder client namespace injected ≡ (injected, none)
mutate_idem_example = mutate_idem builder client namespace pod injected mutated

abbrev refusing : Pod
refusing = record pod {
  annotations = ("sidecar.opentelemetry.io/inject", "False") ∷ [];
  containers = container "app" ∷ container "otc-container" ∷ [];
}

abbrev asking : Namespace
asking = record { name = "ns"; annotations = ("sidecar.opentelemetry.io/inject", "true") ∷ [] }
