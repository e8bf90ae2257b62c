-- ===== src/Webhook/Types.antt =====
-- apis/v1alpha1/opentelemetrycollector_types.go: the fields that the webhook reads or sets. An int32
-- is an integer: the webhook compares them and computes none.
use opentelemetry_operator.Prelude.{String, Bool, List, Option}
use opentelemetry_operator.Prelude.Int.{ℤ}
use opentelemetry_operator.GoMap.{Map}
use opentelemetry_operator.Kube.{ResourceRequirements}

pub record ScalingRules : Type 0 where
  pub stabilization_window_seconds : Option ℤ

pub record Behavior : Type 0 where
  pub scale_down : Option ScalingRules
  pub scale_up : Option ScalingRules

-- A quantity is what its AsInt64 returns: `none` where it is not an int64.
pub record MetricTarget : Type 0 where
  pub type_name : String
  pub average_value : Option (Option ℤ)
  pub value : Option (Option ℤ)

pub record MetricSpec : Type 0 where
  pub type_name : String
  pub pods : Option MetricTarget

pub record AutoscalerSpec : Type 0 where
  pub min_replicas : Option ℤ
  pub max_replicas : Option ℤ
  pub behavior : Option Behavior
  pub metrics : List MetricSpec
  pub target_cpu_utilization : Option ℤ
  pub target_memory_utilization : Option ℤ

pub record Port : Type 0 where
  pub name : String
  pub port : ℤ

pub record Probe : Type 0 where
  pub initial_delay_seconds : Option ℤ
  pub period_seconds : Option ℤ
  pub timeout_seconds : Option ℤ
  pub success_threshold : Option ℤ
  pub failure_threshold : Option ℤ
  pub termination_grace_period_seconds : Option ℤ

pub record TargetAllocator : Type 0 where
  pub enabled : Bool
  pub replicas : Option ℤ
  pub resources : ResourceRequirements

pub record Ingress : Type 0 where
  pub type_name : String
  pub route_termination : String

pub record Spec : Type 0 where
  pub mode : String
  pub upgrade_strategy : String
  pub config : String
  pub replicas : Option ℤ
  pub min_replicas : Option ℤ
  pub max_replicas : Option ℤ
  pub autoscaler : Option AutoscalerSpec
  pub target_allocator : TargetAllocator
  pub volume_claim_templates : List String
  pub tolerations : List String
  pub priority_class_name : String
  pub affinity : Option String
  pub ports : List Port
  pub ingress : Ingress
  pub liveness_probe : Option Probe

pub record OpenTelemetryCollector : Type 0 where
  pub name : String
  pub labels : Map String
  pub spec : Spec
