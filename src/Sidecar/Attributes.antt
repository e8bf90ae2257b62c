-- ===== src/Sidecar/Attributes.antt =====
-- pkg/sidecar/attributes.go: the resource attributes of a pod with a sidecar.
use opentelemetry_operator.Prelude.{
  String, List, [], ◌∷◌, Bool, true, false, Option, none, some, ◌==◌, if◌then◌else◌, ◌<+>◌, join,
  sort, map,
}
use opentelemetry_operator.GoMap.{Map, get, put, keys}
use opentelemetry_operator.Kube.{EnvVar, EnvVarSource, OwnerReference, Namespace}

-- The fields that the code reads of an apps/v1 ReplicaSet or Deployment.
pub record Workload : Type 0 where
  pub name : String
  pub namespace : String
  pub uid : String
  pub owner_references : List OwnerReference

pub record PodReferences : Type 0 where
  pub replicaset : Option Workload
  pub deployment : Option Workload

abbrev pub resource_attributes_env_name : String
resource_attributes_env_name = "OTEL_RESOURCE_ATTRIBUTES"

put_workload : String → Option Workload → Map String → Map String
put_workload prefix none m = m
put_workload prefix (some w) m = put (put m (prefix <+> ".uid") w.uid) (prefix <+> ".name") w.name

pair : Map String → String → String
pair m key = key <+> "=" <+> (elim (get m key) [ none ↦ "" | some v ↦ v ])

-- The keys are sorted, so that the order of `range` does not matter.
unfoldable pub map_to_value : Map String → String
unfolding pair
map_to_value m = join (map (pair m) (sort (keys m))) ","

unfoldable pub attributes_of : Namespace → PodReferences → Map String
unfolding put_workload
attributes_of ns references =
    let pod : Map String =
      ("k8s.pod.name", "$(OTEL_RESOURCE_ATTRIBUTES_POD_NAME)")
      ∷ ("k8s.pod.uid", "$(OTEL_RESOURCE_ATTRIBUTES_POD_UID)")
      ∷ ("k8s.node.name", "$(OTEL_RESOURCE_ATTRIBUTES_NODE_NAME)")
      ∷ ("k8s.namespace.name", ns.name)
      ∷ [] in
    put_workload "k8s.replicaset" references.replicaset
      (put_workload "k8s.deployment" references.deployment pod)

abbrev field : String → String → EnvVar
field name path = record {
  name = name;
  value = "";
  value_from = some (EnvVarSource.field_ref path);
}

unfoldable pub get_resource_attributes_env : Namespace → PodReferences → List EnvVar
get_resource_attributes_env ns references =
    field "OTEL_RESOURCE_ATTRIBUTES_POD_NAME" "metadata.name"
    ∷ field "OTEL_RESOURCE_ATTRIBUTES_POD_UID" "metadata.uid"
    ∷ field "OTEL_RESOURCE_ATTRIBUTES_NODE_NAME" "spec.nodeName"
    ∷ record {
      name = resource_attributes_env_name;
      value = map_to_value (attributes_of ns references);
      value_from = none;
    }
    ∷ []

unfoldable pub has_resource_attribute_env_var : List EnvVar → Bool
has_resource_attribute_env_var [] = false
has_resource_attribute_env_var (e ∷ envs) =
    if e.name == resource_attributes_env_name then true else has_resource_attribute_env_var envs
