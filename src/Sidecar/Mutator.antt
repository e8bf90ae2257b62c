-- ===== src/Sidecar/Mutator.antt =====
-- pkg/sidecar/annotation.go, pod.go and podmutator.go: when a pod gets a sidecar, and which.
pub mod Idempotent
pub mod Refusal
use opentelemetry_operator.Prelude.{
  ℕ, String, List, [], ◌∷◌, ◌++◌, Bool, true, false, Option, none, some, ◌≡◌, ◌==◌, ◌||◌, not,
  if◌then◌else◌, ◌<+>◌, equal_fold, cut,
}
use opentelemetry_operator.GoMap.{read, Map, put}
use opentelemetry_operator.Upgrade.Types.{Yaml}
use opentelemetry_operator.Naming.Truncate.{Bytes}
use opentelemetry_operator.Naming.Names.{ta_service_name}
use opentelemetry_operator.Prometheus.Config.{Checked, valid, invalid}
use opentelemetry_operator.Prometheus.Message.{message}
use opentelemetry_operator.Prometheus.Replace.{replace_config}
use opentelemetry_operator.Kube.{EnvVar, Container, Pod, Namespace, Volume, OwnerReference}
use opentelemetry_operator.Sidecar.Attributes.{
  Workload, PodReferences, get_resource_attributes_env, has_resource_attribute_env_var,
}

-- The fields that the code reads of an OpenTelemetryCollector.
pub record Collector : Type 0 where
  pub name : String
  pub namespace : String
  pub mode : String
  pub volumes : List Volume
  pub config : String
  pub target_allocator_enabled : Bool

pub data Result (A : Type 0) : Type 0 where
  ok : A → Result A
  err : String → Result A

-- The API server's answers; `none` is an error.
pub record Client : Type 0 where
  pub get_collector : String → String → Result Collector
  pub list_collectors : String → Result (List Collector)
  pub get_replica_set : String → String → Option Workload
  pub get_deployment : String → String → Option Workload

abbrev pub container_name : String
container_name = "otc-container"

-- What the mutator takes from elsewhere: yaml.v2 with the text of its error, the feature gate of the
-- rewriting, the bytes of a text, unicode.ToLower, and collector.Container, which names the container
-- naming.Container().
pub record Builder : Type 0 where
  pub yaml : Yaml
  pub marshal_error : String
  pub rewrite_enabled : Bool
  pub text : Bytes → String
  pub to_lower : ℕ → ℕ
  pub container : Collector → Container
  pub container-name : (c : Collector) → (container c).name ≡ container_name

abbrev pub config_result : String → Checked String → Result String
config_result marshal_error (valid config) = ok config
config_result marshal_error (invalid p) = err (message marshal_error p)

-- reconcile.ReplaceConfig(otelcol)
unfoldable pub sidecar_config : Builder → Collector → Result String
sidecar_config b otelcol = config_result b.marshal_error (
    replace_config b.yaml (record {
      config = otelcol.config;
      target_allocator_enabled = otelcol.target_allocator_enabled;
      rewrite_enabled = b.rewrite_enabled;
      service = ta_service_name b.text b.to_lower otelcol.name;
    }))

abbrev pub annotation : String
annotation = "sidecar.opentelemetry.io/inject"

unfoldable pub annotation_value : Namespace → Pod → String
annotation_value ns pod =
    let pod_value = read pod.annotations annotation in
    let ns_value = read ns.annotations annotation in
    if ns_value == ""
    then pod_value
    else if pod_value == ""
    then ns_value
    else if not (equal_fold pod_value "true")
    then pod_value
    else if equal_fold ns_value "false"
    then pod_value
    else ns_value

unfoldable pub named_sidecar : List Container → Bool
named_sidecar [] = false
named_sidecar (c ∷ cs) = if c.name == container_name then true else named_sidecar cs

unfoldable pub exists_in : Pod → Bool
exists_in pod = named_sidecar pod.containers

unfoldable pub without_sidecar : List Container → List Container
without_sidecar [] = []
without_sidecar (c ∷ cs) =
    let rest = without_sidecar cs in if c.name == container_name then rest else c ∷ rest

unfoldable pub remove : Pod → Pod
remove pod =
    if exists_in pod then record pod { containers = without_sidecar pod.containers } else pod

-- The container with its argument and its environment.
unfoldable pub sidecar_container : Container → String → List EnvVar → Container
sidecar_container c config attributes =
    let envs = c.env ++ (record { name = "OTEL_CONFIG"; value = config; value_from = none } ∷ []) in
    record c {
      args = c.args ++ ("--config=env:OTEL_CONFIG" ∷ []);
      env = if has_resource_attribute_env_var envs then envs else envs ++ attributes;
    }

unfoldable pub with_sidecar : Builder → Collector → Pod → String → List EnvVar → Pod
with_sidecar b otelcol pod config attributes = record pod {
  containers = pod.containers ++ (sidecar_container (b.container otelcol) config attributes ∷ []);
  volumes = pod.volumes ++ otelcol.volumes;
  labels =
      put pod.labels "sidecar.opentelemetry.io/injected"
        (otelcol.namespace <+> "." <+> otelcol.name);
}

unfoldable pub add : Builder → Collector → Pod → List EnvVar → Pod × Option String
add b otelcol pod attributes = elim (sidecar_config b otelcol) [
  | err e ↦ (pod, some e)
  | ok config ↦ (with_sidecar b otelcol pod config attributes, none)
]

-- The errors of the selection: the pod is created without a sidecar after the first three.
pub data SelectError : Type 0 where
  multiple_instances_possible : SelectError
  no_instances_available : SelectError
  instance_not_sidecar : SelectError
  other : String → SelectError

pub data Selected : Type 0 where
  selected : Collector → Selected
  failed : SelectError → Selected

unfoldable pub sidecars : List Collector → List Collector
sidecars [] = []
sidecars (c ∷ cs) = let rest = sidecars cs in if c.mode == "sidecar" then c ∷ rest else rest

unfoldable pub only : List Collector → Selected
only [] = failed SelectError.no_instances_available
only (c ∷ []) = selected c
only (c ∷ d ∷ cs) = failed SelectError.multiple_instances_possible

unfoldable pub select_collector_instance : Client → Namespace → Selected
select_collector_instance client ns = elim (client.list_collectors ns.name) [
  | err e ↦ failed (SelectError.other e)
  | ok cs ↦ only (sidecars cs)
]

unfoldable pub check_mode : Result Collector → Selected
check_mode (err e) = failed (SelectError.other e)
check_mode (ok c) =
    if c.mode == "sidecar" then selected c else failed SelectError.instance_not_sidecar

unfoldable pub get_collector_instance : Client → Namespace → String → Selected
get_collector_instance client ns ann = elim (equal_fold ann "true") [
  | true ↦ select_collector_instance client ns
  | false ↦ elim (cut ann 47) [
    | some (namespace, name) ↦ check_mode (client.get_collector namespace name)
    | none ↦ check_mode (client.get_collector ns.name ann)
  ]
]

unfoldable pub find_owner_reference_kind : List OwnerReference → String → String
find_owner_reference_kind [] kind = ""
find_owner_reference_kind (o ∷ os) kind =
    if o.kind == kind then o.name else find_owner_reference_kind os kind

unfoldable pub get_deployment_reference : Client → Workload → Option Workload
get_deployment_reference client replica_set =
    let name = find_owner_reference_kind replica_set.owner_references "Deployment" in
    if name == "" then none else client.get_deployment replica_set.namespace name

unfoldable pub get_replica_set_reference :
    Client → List OwnerReference → Namespace → Option Workload
get_replica_set_reference client owners ns =
    let name = find_owner_reference_kind owners "ReplicaSet" in
    if name == "" then none else client.get_replica_set ns.name name

unfoldable pub pod_references : Client → List OwnerReference → Namespace → PodReferences
pod_references client owners ns = elim (get_replica_set_reference client owners ns) [
  | none ↦ record { replicaset = none; deployment = none }
  | some rs ↦ record { replicaset = some rs; deployment = get_deployment_reference client rs }
]

is_tolerated : SelectError → Bool
is_tolerated (SelectError.other e) = false
is_tolerated _ = true

-- Go's error of the selection, for the webhook.
error_text : SelectError → String
error_text (SelectError.other e) = e
error_text _ = ""

unfoldable pub inject : Builder → Client → Namespace → Pod → Selected → Pod × Option String
unfolding is_tolerated error_text
inject b client ns pod (failed e) =
    if is_tolerated e then (pod, none) else (pod, some (error_text e))
inject b client ns pod (selected otelcol) =
    add b otelcol pod
      (get_resource_attributes_env ns (pod_references client pod.owner_references ns))

unfoldable pub mutate : Builder → Client → Namespace → Pod → Pod × Option String
mutate b client ns pod =
    let ann = annotation_value ns pod in
    if ann == ""
    then (pod, none)
    else if equal_fold ann "false"
    then (remove pod, none)
    else if exists_in pod
    then (pod, none)
    else inject b client ns pod (get_collector_instance client ns ann)
