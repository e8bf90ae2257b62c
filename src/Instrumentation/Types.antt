-- ===== src/Instrumentation/Types.antt =====
-- apis/v1alpha1/instrumentation_types.go: the fields that the injection and the webhook read.
use opentelemetry_operator.Prelude.{String, Bool, List}
use opentelemetry_operator.GoMap.{Map}
use opentelemetry_operator.Kube.{EnvVar, ResourceRequirements}

-- The specs of Java, NodeJS, Python, .NET and Go have the same fields.
pub record Agent : Type 0 where
  pub image : String
  pub env : List EnvVar
  pub resources : ResourceRequirements

pub record ApacheHttpd : Type 0 where
  pub image : String
  pub env : List EnvVar
  pub attrs : List EnvVar
  pub version : String
  pub config_path : String
  pub resources : ResourceRequirements

pub record Sampler : Type 0 where
  pub type_name : String
  pub argument : String

pub record Spec : Type 0 where
  pub exporter_endpoint : String
  pub resource_attributes : Map String
  pub add_k8s_uid_attributes : Bool
  pub propagators : List String
  pub sampler : Sampler
  pub env : List EnvVar
  pub java : Agent
  pub node_js : Agent
  pub python : Agent
  pub dot_net : Agent
  pub go : Agent
  pub apache_httpd : ApacheHttpd

pub record Instrumentation : Type 0 where
  pub name : String
  pub namespace : String
  pub labels : Map String
  pub annotations : Map String
  pub spec : Spec
