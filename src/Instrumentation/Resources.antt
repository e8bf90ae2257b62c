-- ===== src/Instrumentation/Resources.antt =====
-- The resource attributes of pkg/instrumentation/sdk.go: createResourceMap, addParentResourceLabels,
-- resourceMapToStr and chooseServiceName.
pub mod Fuel
use opentelemetry_operator.Prelude.{
  ℕ, zero, suc, String, List, [], ◌∷◌, ◌++◌, Bool, true, false, Option, none, some, ◌==◌, ◌||◌,
  for_each, get_elem?, if◌then◌else◌, ◌>>=◌, ◌<+>◌, split, trim_space, lower_is, sort,
}
use opentelemetry_operator.GoMap.{Map, put, keys, read}
use opentelemetry_operator.Kube.{EnvVar, Container, OwnerReference, Pod, Namespace}
use opentelemetry_operator.Instrumentation.Types.{Instrumentation}
use opentelemetry_operator.Instrumentation.Env.{get_index_of_env}

-- Whether the text of OTEL_RESOURCE_ATTRIBUTES defines the key: `existingRes`.
defined_in : List String → String → Bool
defined_in [] key = false
defined_in (kv ∷ kvs) key = elim (split (trim_space kv) 61) [
  | k ∷ v ∷ [] ↦ if k == key then true else defined_in kvs key
  | _ ↦ defined_in kvs key
]

unfoldable pub existing : List EnvVar → String → Bool
unfolding defined_in
existing envs key = elim (get_index_of_env envs "OTEL_RESOURCE_ATTRIBUTES") [
  | none ↦ false
  | some i ↦ elim (get_elem? envs i) [ none ↦ false | some e ↦ defined_in (split e.value 44) key ]
]

-- The parent objects that the API server tells: the owners of a ReplicaSet, none where it fails.
abbrev pub Owners : Type 0
Owners = String → String → List OwnerReference

set_uid : Bool → String → String → Map String → Map String
set_uid uid key value m = if uid then put m key value else m

set_owner : Bool → String → OwnerReference → Map String → Map String
unfolding set_uid
set_owner uid prefix o m = set_uid uid (prefix <+> ".uid") o.uid (put m (prefix <+> ".name") o.name)

-- The cases of the switch that have no parents of their own.
add_owner : Bool → Map String → OwnerReference → Map String
unfolding set_owner
add_owner uid m o =
    if lower_is o.kind "deployment"
    then set_owner uid "k8s.deployment" o m
    else if lower_is o.kind "statefulset"
    then set_owner uid "k8s.statefulset" o m
    else if lower_is o.kind "daemonset"
    then set_owner uid "k8s.daemonset" o m
    else if lower_is o.kind "job"
    then set_owner uid "k8s.job" o m
    else if lower_is o.kind "cronjob"
    then set_owner uid "k8s.cronjob" o m
    else m

-- On fuel: nothing in the code bounds a chain of ReplicaSets that own each other. `none` where the fuel
-- does not reach the chain's end; the code does not return where it has none.
unfoldable pub add_parent_resource_labels :
    ℕ → Owners → Bool → String → List OwnerReference → Map String → Option (Map String)
unfolding add_owner set_owner
add_parent_resource_labels fuel owners uid ns [] m = some m
add_parent_resource_labels zero owners uid ns (o ∷ os) m = none
add_parent_resource_labels (suc fuel) owners uid ns (o ∷ os) m =
    let replica_set =
      add_parent_resource_labels fuel owners uid ns (owners ns o.name)
        (set_owner uid "k8s.replicaset" o m) in
    (if lower_is o.kind "replicaset" then replica_set else some (add_owner uid m o))
    >>= (λ m'. add_parent_resource_labels (suc fuel) owners uid ns os m')

-- The attributes of the spec that the container does not define.
pub add_attributes : (String → Bool) → Map String → Map String → Map String
add_attributes defined [] res = res
add_attributes defined ((k, v) ∷ m) res =
    add_attributes defined m (if defined k then res else put res k v)

-- The loop over k8sResources: the attributes with a value that the container does not define.
pub add_resources : (String → Bool) → Map String → Map String → Map String
add_resources defined [] res = res
add_resources defined ((k, v) ∷ m) res =
    add_resources defined m (if defined k || v == "" then res else put res k v)

abbrev pub own_resources : Namespace → Pod → Container → Map String
own_resources ns pod c =
    ("k8s.namespace.name", ns.name)
    ∷ ("k8s.container.name", c.name)
    ∷ ("k8s.pod.name", pod.name)
    ∷ ("k8s.pod.uid", pod.uid)
    ∷ ("k8s.node.name", pod.node_name)
    ∷ []

-- Each key is written once, so that the order of `range` does not matter; `none` is a
-- panic, or a chain of ReplicaSets without an end.
unfoldable pub create_resource_map :
    ℕ → Owners → Instrumentation → Namespace → Pod → ℕ → Option (Map String)
unfolding add_attributes add_resources
create_resource_map fuel owners otelinst ns pod index = elim (get_elem? pod.containers index) [
  | none ↦ none
  | some c ↦
      let res = add_attributes (existing c.env) otelinst.spec.resource_attributes [] in
      add_parent_resource_labels fuel owners otelinst.spec.add_k8s_uid_attributes ns.name
        pod.owner_references (own_resources ns pod c)
      >>= (λ k8s_resources. some (add_resources (existing c.env) k8s_resources res))
]

add_pair : Map String → String → String → String
add_pair res str k = (if str == "" then "" else str <+> ",") <+> k <+> "=" <+> read res k

-- The keys are sorted, so that the order of `range` does not matter.
unfoldable pub resource_map_to_str : Map String → String
unfolding add_pair
resource_map_to_str res = for_each (add_pair res) "" (sort (keys res))

first_name : Map String → List String → String → String
first_name res [] default = default
first_name res (k ∷ ks) default =
    let rest = first_name res ks default in if read res k == "" then rest else read res k

unfoldable pub choose_service_name : Container → Map String → String
unfolding first_name
choose_service_name c res =
    first_name res
      ("k8s.deployment.name" ∷ "k8s.statefulset.name" ∷ "k8s.job.name" ∷ "k8s.cronjob.name"
        ∷ "k8s.pod.name" ∷ [])
      c.name
