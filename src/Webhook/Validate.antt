-- ===== src/Webhook/Validate.antt =====
-- The methods validateCRDSpec and checkAutoscalerSpec. Each error is a constructor of Reason.
pub mod Parts
pub mod Receiver
pub mod Bounds
pub mod Declared
pub mod Liveness
use opentelemetry_operator.Prelude.{
  String, List, [], ◌∷◌, Bool, true, false, ◌&&◌, ◌||◌, not, Option, none, some, ◌==◌, is_some,
  if◌then◌else◌,
}
use opentelemetry_operator.Prelude.Int.{ℤ, pos, lt_int}
use opentelemetry_operator.Webhook.Types.{
  ScalingRules, Behavior, MetricTarget, MetricSpec, AutoscalerSpec, Port, Probe, Spec,
}
use opentelemetry_operator.Yaml.{Fields}
use opentelemetry_operator.Upgrade.Types.{Yaml}
use opentelemetry_operator.Prometheus.Config.{
  Problem, Checked, valid, invalid, config_to_prom_config, validate_prom_config,
}

pub data Reason : Type 0 where
  no_volume_claim_templates : Reason
  no_tolerations : Reason
  no_priority_class_name : Reason
  no_affinity : Reason
  no_target_allocator : Reason
  prometheus_config : Problem → Reason
  bad_port : Port → Reason
  no_ingress : Reason
  max_replicas_below_one : Reason
  replicas_above_max : Reason
  min_replicas_above_max : Reason
  min_replicas_below_one : Reason
  scale_down_below_one : Reason
  scale_up_below_one : Reason
  bad_cpu_utilization : Reason
  bad_memory_utilization : Reason
  unsupported_metric : Reason
  bad_average_value : Reason
  bad_value : Reason
  bad_target_type : Reason
  bad_initial_delay : Reason
  bad_period : Reason
  bad_timeout : Reason
  bad_success_threshold : Reason
  bad_failure_threshold : Reason
  bad_termination_grace_period : Reason

-- `panic` is a nil dereference.
pub data Verdict : Type 0 where
  accept : Verdict
  reject : Reason → Verdict
  panic : Verdict

-- if b { return error }
infixr 2 ◌⟫◌
abbrev pub ◌⟫◌ : Bool × Reason → Verdict → Verdict
(b, reason) ⟫ rest = if b then reject reason else rest

-- One check after another.
abbrev pub and_then : Verdict → Verdict → Verdict
and_then accept rest = rest
and_then (reject reason) rest = reject reason
and_then panic rest = panic

-- gopkg.in/yaml.v2, the feature gate of the target allocator's rewriting, and the checks of a port's
-- name and number (k8s.io/apimachinery validation), where `true` is an error.
pub record Checks : Type 0 where
  pub yaml : Yaml
  pub rewrite_enabled : Bool
  pub bad_port_name : String → Bool
  pub bad_port_number : ℤ → Bool

-- x != nil && *x < n
abbrev pub below : Option ℤ → ℤ → Bool
below none n = false
below (some x) n = lt_int x n

abbrev pub above : Option ℤ → ℤ → Bool
above none n = false
above (some x) n = lt_int n x

abbrev window : Option ScalingRules → Option ℤ
window none = none
window (some r) = r.stabilization_window_seconds

unfoldable pub check_behavior : Option Behavior → Verdict
check_behavior none = accept
check_behavior (some b) =
    (below (window b.scale_down) (pos 1), scale_down_below_one)
    ⟫ (below (window b.scale_up) (pos 1), scale_up_below_one)
    ⟫ accept

-- val, ok := q.AsInt64(); !ok || val < 1
check_quantity : Option (Option ℤ) → Reason → Verdict
check_quantity none reason = panic
check_quantity (some none) reason = reject reason
check_quantity (some (some v)) reason = (lt_int v (pos 1), reason) ⟫ accept

check_target : Option MetricTarget → Verdict
unfolding check_quantity
check_target none = panic
check_target (some t) =
    if t.type_name == "AverageValue"
    then check_quantity t.average_value bad_average_value
    else if t.type_name == "Value"
    then check_quantity t.value bad_value
    else reject bad_target_type

unfoldable pub check_metrics : List MetricSpec → Verdict
unfolding check_target
check_metrics [] = accept
check_metrics (m ∷ ms) =
    let rest = check_metrics ms in
    (not (m.type_name == "Pods"), unsupported_metric) ⟫ and_then (check_target m.pods) rest

unfoldable pub check_autoscaler_spec : AutoscalerSpec → Verdict
check_autoscaler_spec a =
    let cpu = a.target_cpu_utilization in
    let memory = a.target_memory_utilization in
    and_then (check_behavior a.behavior) (
      (below cpu (pos 1) || above cpu (pos 99), bad_cpu_utilization)
      ⟫ (below memory (pos 1) || above memory (pos 99), bad_memory_utilization)
      ⟫ check_metrics a.metrics)

unfoldable pub check_probe : Option Probe → Verdict
check_probe none = accept
check_probe (some p) =
    (below p.initial_delay_seconds (pos 0), bad_initial_delay)
    ⟫ (below p.period_seconds (pos 1), bad_period)
    ⟫ (below p.timeout_seconds (pos 1), bad_timeout)
    ⟫ (below p.success_threshold (pos 1), bad_success_threshold)
    ⟫ (below p.failure_threshold (pos 1), bad_failure_threshold)
    ⟫ (below p.termination_grace_period_seconds (pos 1), bad_termination_grace_period)
    ⟫ accept

abbrev is_empty {ℓ} : {A : Type ℓ} → List A → Bool
is_empty [] = true
is_empty (x ∷ xs) = false

abbrev pub is_zero : ℤ → Bool
is_zero (pos n) = not (lt_int (pos 0) (pos n))
is_zero _ = false

-- The autoscaler's value, or else 0, and where that is 0 the other.
unfoldable pub unless_zero : Option ℤ → Option ℤ → Option ℤ
unless_zero none other = other
unless_zero (some n) other = if is_zero n then other else some n

abbrev pub field {ℓ} : {A : Type ℓ} → Option AutoscalerSpec → (AutoscalerSpec → Option A) → Option A
field none f = none
field (some a) f = f a

unfoldable pub max_replicas : Spec → Option ℤ
max_replicas s = unless_zero (field s.autoscaler (λ a. a.max_replicas)) s.max_replicas

pub or_replicas : Option ℤ → Option ℤ → Option ℤ
or_replicas none replicas = replicas
or_replicas (some n) replicas = some n

unfoldable pub min_replicas : Spec → Option ℤ
unfolding or_replicas
min_replicas s =
    unless_zero (field s.autoscaler (λ a. a.min_replicas)) (or_replicas s.min_replicas s.replicas)

-- The errors of the mode, in their order.
unfoldable pub check_mode : Spec → Verdict
check_mode s =
    let sidecar = s.mode == "sidecar" in
    (
      not (s.mode == "statefulset") && not (is_empty s.volume_claim_templates),
      no_volume_claim_templates,
    )
    ⟫ (sidecar && not (is_empty s.tolerations), no_tolerations)
    ⟫ (sidecar && not (s.priority_class_name == ""), no_priority_class_name)
    ⟫ (sidecar && is_some s.affinity, no_affinity)
    ⟫ (s.target_allocator.enabled && not (s.mode == "statefulset"), no_target_allocator)
    ⟫ accept

module _ (checks : Checks) where
  abbrev check_receiver : Spec → Checked Fields → Verdict
  check_receiver s (invalid e) = reject (prometheus_config e)
  check_receiver s (valid m) =
      elim (validate_prom_config m s.target_allocator.enabled checks.rewrite_enabled) [
        | none ↦ accept
        | some e ↦ reject (prometheus_config e)
      ]

  unfoldable pub check_prometheus : Spec → Verdict
  check_prometheus s = elim s.target_allocator.enabled [
    | false ↦ accept
    | true ↦ check_receiver s (config_to_prom_config checks.yaml s.config)
  ]

  unfoldable pub check_ports : List Port → Verdict
  check_ports [] = accept
  check_ports (p ∷ ps) =
      let rest = check_ports ps in
      (checks.bad_port_name p.name || checks.bad_port_number p.port, bad_port p) ⟫ rest

no_ingress_mode : Spec → Bool
no_ingress_mode s = s.ingress.type_name == "ingress" && s.mode == "sidecar"

-- What is checked after the replicas: the ingress once more, and the probe.
unfoldable pub check_rest : Spec → Verdict
unfolding no_ingress_mode
check_rest s = (no_ingress_mode s, no_ingress) ⟫ check_probe s.liveness_probe

-- `return checkAutoscalerSpec(…)` leaves the method.
unfoldable pub check_replicas : Spec → Option ℤ → Verdict
check_replicas s none = check_rest s
check_replicas s (some max) =
    (lt_int max (pos 1), max_replicas_below_one)
    ⟫ (above s.replicas max, replicas_above_max)
    ⟫ (above (min_replicas s) max, min_replicas_above_max)
    ⟫ (below (min_replicas s) (pos 1), min_replicas_below_one)
    ⟫ (elim s.autoscaler [ some a ↦ check_autoscaler_spec a | none ↦ check_rest s ])

unfoldable pub validate_crd_spec : Checks → Spec → Verdict
unfolding no_ingress_mode
validate_crd_spec checks s = and_then (check_mode s) (
    and_then (check_prometheus checks s) (
      and_then (check_ports checks s.ports)
        ((no_ingress_mode s, no_ingress) ⟫ check_replicas s (max_replicas s))))
