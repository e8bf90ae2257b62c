-- ===== src/Webhook/Default.antt =====
-- The method Default.
pub mod Idempotent
use opentelemetry_operator.Prelude.{
  String, List, [], ◌∷◌, Bool, true, false, ◌&&◌, ◌||◌, Option, none, some, ◌==◌, is_some,
  if◌then◌else◌,
}
use opentelemetry_operator.Prelude.Int.{ℤ, pos}
use opentelemetry_operator.GoMap.{Map, read, put}
use opentelemetry_operator.Kube.{ResourceRequirements}
use opentelemetry_operator.Webhook.Types.{
  AutoscalerSpec, TargetAllocator, Ingress, Spec, OpenTelemetryCollector,
}

abbrev pub or_value : String → String → String
or_value s default = if s == "" then default else s

abbrev pub or_default {ℓ} : {A : Type ℓ} → Option A → A → A
or_default none d = d
or_default (some a) d = a

abbrev pub first_of {ℓ} : {A : Type ℓ} → Option A → Option A → Option A
first_of none b = b
first_of (some a) b = some a

abbrev managed_by : String
managed_by = "app.kubernetes.io/managed-by"

default_labels : Map String → Map String
default_labels labels =
    if read labels managed_by == "" then put labels managed_by "opentelemetry-operator" else labels

default_resources : ResourceRequirements → ResourceRequirements
default_resources r = record {
  limits = first_of r.limits (some (("cpu", "200m") ∷ ("memory", "500Mi") ∷ []));
  requests = first_of r.requests (some (("cpu", "100m") ∷ ("memory", "250Mi") ∷ []));
}

fill_target_allocator : TargetAllocator → TargetAllocator
fill_target_allocator ta = record ta {
  replicas = first_of ta.replicas (some (pos 1));
  resources = default_resources ta.resources;
}

default_target_allocator : TargetAllocator → TargetAllocator
unfolding default_resources fill_target_allocator
default_target_allocator ta = if ta.enabled then fill_target_allocator ta else ta

abbrev empty_autoscaler : AutoscalerSpec
empty_autoscaler = record {
  min_replicas = none;
  max_replicas = none;
  behavior = none;
  metrics = [];
  target_cpu_utilization = none;
  target_memory_utilization = none;
}

-- A CPU target of 90, if there is no target.
default_cpu_target : Option ℤ → Option ℤ → Option ℤ
default_cpu_target none none = some (pos 90)
default_cpu_target none (some m) = none
default_cpu_target (some c) memory = some c

-- The fields of the autoscaler, from the deprecated ones of the spec and its replicas.
fill_autoscaler : Spec → Option ℤ → AutoscalerSpec → AutoscalerSpec
unfolding default_cpu_target
fill_autoscaler spec replicas a = record a {
  max_replicas = first_of a.max_replicas spec.max_replicas;
  min_replicas = first_of a.min_replicas (first_of spec.min_replicas replicas);
  target_cpu_utilization = default_cpu_target a.target_cpu_utilization a.target_memory_utilization;
}

autoscaler_max : Option AutoscalerSpec → Option ℤ
autoscaler_max none = none
autoscaler_max (some a) = a.max_replicas

default_autoscaler : Spec → Option ℤ → Option AutoscalerSpec
unfolding fill_autoscaler autoscaler_max
default_autoscaler spec replicas =
    if is_some spec.max_replicas || is_some (autoscaler_max spec.autoscaler)
    then some (fill_autoscaler spec replicas (or_default spec.autoscaler empty_autoscaler))
    else spec.autoscaler

default_ingress : Ingress → Ingress
default_ingress i =
    if i.type_name == "route" && i.route_termination == ""
    then record i { route_termination = "edge" }
    else i

unfoldable pub default_spec : Spec → Spec
unfolding default_target_allocator default_autoscaler default_ingress
default_spec spec =
    let replicas = first_of spec.replicas (some (pos 1)) in
    record spec {
      mode = or_value spec.mode "deployment";
      upgrade_strategy = or_value spec.upgrade_strategy "automatic";
      replicas = replicas;
      target_allocator = default_target_allocator spec.target_allocator;
      autoscaler = default_autoscaler spec replicas;
      ingress = default_ingress spec.ingress;
    }

unfoldable pub default : OpenTelemetryCollector → OpenTelemetryCollector
unfolding default_labels
default r = record r { labels = default_labels r.labels; spec = default_spec r.spec }
