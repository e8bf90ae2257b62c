-- ===== src/Kube.antt =====
-- The Kubernetes types of k8s.io/api that the pod mutators use: the fields that they read or set.
-- A nil map reads as an empty one; a nil pointer is `none`.
use opentelemetry_operator.Prelude.{ℕ, String, Bool, Option, List}
use opentelemetry_operator.GoMap.{Map}

pub data EnvVarSource : Type 0 where
  field_ref : String → EnvVarSource
  resource_field_ref : String → EnvVarSource
  config_map_key_ref : String → String → EnvVarSource
  secret_key_ref : String → String → EnvVarSource

pub record EnvVar : Type 0 where
  pub name : String
  pub value : String
  pub value_from : Option EnvVarSource

pub record VolumeMount : Type 0 where
  pub name : String
  pub mount_path : String

pub data VolumeSource : Type 0 where
  empty_dir : VolumeSource
  host_path : String → VolumeSource
  config_map : String → VolumeSource
  other_source : String → VolumeSource

pub record Volume : Type 0 where
  pub name : String
  pub source : VolumeSource

pub record ResourceRequirements : Type 0 where
  pub limits : Option (Map String)
  pub requests : Option (Map String)

pub record SecurityContext : Type 0 where
  pub run_as_user : Option ℕ
  pub privileged : Option Bool
  pub capabilities_add : List String

pub record Container : Type 0 where
  pub name : String
  pub image : String
  pub command : List String
  pub args : List String
  pub env : List EnvVar
  pub volume_mounts : List VolumeMount
  pub resources : ResourceRequirements
  pub security_context : Option SecurityContext

pub record OwnerReference : Type 0 where
  pub kind : String
  pub name : String
  pub uid : String

pub record Pod : Type 0 where
  pub name : String
  pub namespace : String
  pub uid : String
  pub labels : Map String
  pub annotations : Map String
  pub owner_references : List OwnerReference
  pub node_name : String
  pub share_process_namespace : Option Bool
  pub containers : List Container
  pub init_containers : List Container
  pub volumes : List Volume

pub record Namespace : Type 0 where
  pub name : String
  pub annotations : Map String
