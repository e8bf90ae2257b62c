-- ===== src/Instrumentation/Examples.antt =====
-- The injection of pkg/instrumentation on a small pod.
use opentelemetry_operator.Prelude.{List, [], ◌∷◌, ◌++◌, true, false, none, some, ◌≡◌, refl}
use opentelemetry_operator.Kube.{
  EnvVar, Container, Pod, Namespace, ResourceRequirements, OwnerReference,
}
use opentelemetry_operator.Instrumentation.Types.{Agent, Spec, Instrumentation}
use opentelemetry_operator.Instrumentation.Env.{env_var}
use opentelemetry_operator.Instrumentation.Env.Laws.{find_env, changed}
use opentelemetry_operator.Instrumentation.Resources.{Owners, resource_map_to_str}
use opentelemetry_operator.Instrumentation.Sdk.{sdk_env}
use opentelemetry_operator.Instrumentation.Sdk.Keeps.{
  resource_attributes, extend, sdk_env-KeepsOther,
}
use opentelemetry_operator.Instrumentation.Sdk.Last.{all_filled, sdk_env_last}
use opentelemetry_operator.Instrumentation.Mutator.{ok, err, Client, Gates}

abbrev nothing : ResourceRequirements
nothing = record { limits = none; requests = none }

abbrev agent : Agent
agent = record { image = "agent:1"; env = env_var "OTEL_X" "spec" ∷ []; resources = nothing }

abbrev pub spec : Spec
spec = record {
  exporter_endpoint = "http://collector:4317";
  resource_attributes = ("team", "a") ∷ [];
  add_k8s_uid_attributes = false;
  propagators = "b3" ∷ [];
  sampler = record { type_name = "always_on"; argument = "" };
  env = [];
  java = agent;
  node_js = agent;
  python = agent;
  dot_net = agent;
  go = agent;
  apache_httpd = record {
    image = "";
    env = [];
    attrs = [];
    version = "2.4";
    config_path = "";
    resources = nothing;
  };
}

abbrev pub instrumentation : Instrumentation
instrumentation = record {
  name = "inst";
  namespace = "ns";
  labels = [];
  annotations = [];
  spec = spec;
}

abbrev own : List EnvVar
own = env_var "OTEL_RESOURCE_ATTRIBUTES" "k=v" ∷ env_var "OTEL_SERVICE_NAME" "mine" ∷ []

abbrev pub app : Container
app = record {
  name = "app";
  image = "app:1";
  command = [];
  args = [];
  env = own;
  volume_mounts = [];
  resources = nothing;
  security_context = none;
}

abbrev pub pod : Pod
pod = record {
  name = "pod";
  namespace = "ns";
  uid = "u";
  labels = [];
  annotations = ("instrumentation.opentelemetry.io/inject-java", "true") ∷ [];
  owner_references = record { kind = "ReplicaSet"; name = "rs"; uid = "r" } ∷ [];
  node_name = "";
  share_process_namespace = none;
  containers = app ∷ [];
  init_containers = [];
  volumes = [];
}

abbrev pub namespace : Namespace
namespace = record { name = "ns"; annotations = [] }

abbrev deployment : OwnerReference
deployment = record { kind = "Deployment"; name = "app"; uid = "d" }

abbrev pub owners : Owners
owners ns name = deployment ∷ []

abbrev pub client : Client
client = record {
  get_instance = λ ns name. err "not found";
  list_instances = λ ns. ok (instrumentation ∷ []);
}

abbrev pub gates : Gates
gates = record {
  java = true;
  node_js = true;
  python = true;
  dot_net = true;
  go = true;
  apache_httpd = true;
}

sdk_env_last_example :
    (before : List EnvVar) × (sdk_env spec "app" [] own
      ≡ before
        ++ (changed
              (find_env own resource_attributes)
              resource_attributes
              (resource_map_to_str (all_filled false []))
              (extend (resource_map_to_str (all_filled false [])))
            ∷ []))
sdk_env_last_example = sdk_env_last spec "app" [] own

sdk_env-KeepsOther_example :
    find_env (sdk_env spec "app" [] own) "OTEL_SERVICE_NAME"
    ≡ some (env_var "OTEL_SERVICE_NAME" "mine")
unfolding find_env
sdk_env-KeepsOther_example =
    sdk_env-KeepsOther spec "app" [] own "OTEL_SERVICE_NAME" (env_var "OTEL_SERVICE_NAME" "mine")
      refl refl
