-- ===== src/Webhook/Examples.antt =====
-- The webhook on one OpenTelemetryCollector.
use opentelemetry_operator.Prelude.{[], ◌∷◌, false, none, some, ◌≡◌, refl, inl}
use opentelemetry_operator.Prelude.Int.{pos, negsuc, lt_int}
use opentelemetry_operator.Webhook.Types.{AutoscalerSpec, Probe, Spec, OpenTelemetryCollector}
use opentelemetry_operator.Webhook.Validate.{
  accept, Checks, max_replicas, min_replicas, unless_zero, check_mode, check_prometheus,
  check_ports, check_replicas, check_rest, check_probe, check_behavior, check_metrics,
  check_autoscaler_spec, validate_crd_spec,
}
use opentelemetry_operator.Webhook.Validate.Declared.{IsAtMost, validate-ordered}
use opentelemetry_operator.Webhook.Validate.Liveness.{validate_ignores_probe}

abbrev autoscaler : AutoscalerSpec
autoscaler = record {
  min_replicas = some (pos 1);
  max_replicas = some (pos 3);
  behavior = none;
  metrics = [];
  target_cpu_utilization = some (pos 90);
  target_memory_utilization = none;
}

abbrev pub spec : Spec
spec = record {
  mode = "deployment";
  upgrade_strategy = "";
  config = "";
  replicas = some (pos 2);
  min_replicas = none;
  max_replicas = none;
  autoscaler = some autoscaler;
  target_allocator = record {
    enabled = false;
    replicas = none;
    resources = record { limits = none; requests = none };
  };
  volume_claim_templates = [];
  tolerations = [];
  priority_class_name = "";
  affinity = none;
  ports = record { name = "otlp"; port = pos 4317 } ∷ [];
  ingress = record { type_name = "route"; route_termination = "" };
  liveness_probe = none;
}

abbrev collector : OpenTelemetryCollector
collector = record { name = "otel"; labels = []; spec = spec }

abbrev checks : Checks
checks = record {
  yaml = record {
    parse = λ text. none;
    marshal = λ m. none;
    format_d = λ v. "";
    format_s = λ v. "";
  };
  rewrite_enabled = false;
  bad_port_name = λ name. false;
  bad_port_number = λ port. false;
}

-- A probe with a negative delay.
abbrev bad_probe : Probe
bad_probe = record {
  initial_delay_seconds = some (negsuc 0);
  period_seconds = none;
  timeout_seconds = none;
  success_threshold = none;
  failure_threshold = none;
  termination_grace_period_seconds = none;
}

accepted : validate_crd_spec checks spec ≡ accept
unfolding validate_crd_spec max_replicas min_replicas unless_zero check_mode check_prometheus
    check_ports check_replicas check_rest check_probe check_behavior check_metrics
    check_autoscaler_spec
accepted = refl

has_max : max_replicas spec ≡ some (pos 3)
unfolding max_replicas unless_zero
has_max = refl

validate-ordered_example :
    (lt_int (pos 3) (pos 1) ≡ false)
    × (lt_int (pos 1) (pos 1) ≡ false)
    × (lt_int (pos 3) (pos 1) ≡ false)
    × IsAtMost (some (pos 2)) (pos 3)
validate-ordered_example =
    validate-ordered checks spec (pos 3) (pos 1) accepted
      (inl ((autoscaler, refl, refl), λ h. cc h)) (inl ((autoscaler, refl, refl), λ h. cc h))

validate_ignores_probe_example :
    validate_crd_spec checks (record spec { liveness_probe = some bad_probe })
    ≡ validate_crd_spec checks spec
validate_ignores_probe_example =
    validate_ignores_probe checks spec autoscaler (pos 3) (some bad_probe) refl has_max
