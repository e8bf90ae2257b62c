-- ===== src/Webhook/Validate/Liveness.antt =====
-- Where the validation does not look at the liveness probe.
use opentelemetry_operator.Prelude.{Option, some, ◌≡◌, refl, ap}
use opentelemetry_operator.Prelude.Int.{ℤ}
use opentelemetry_operator.Webhook.Types.{AutoscalerSpec, Probe, Spec}
use opentelemetry_operator.Webhook.Validate.{
  Checks, and_then, ◌⟫◌, no_ingress, no_ingress_mode, check_ports, max_replicas, min_replicas,
  check_mode, check_prometheus, check_replicas, validate_crd_spec,
}

replicas_ignore_probe :
    (s : Spec) (a : AutoscalerSpec) (max : ℤ) (o : Option ℤ) (probe : Option Probe)
    → s.autoscaler ≡ some a
    → o ≡ some max
    → check_replicas (record s { liveness_probe = probe }) o ≡ check_replicas s o
unfolding check_replicas min_replicas
replicas_ignore_probe s a max o probe e m = rw m (rw e refl)

-- With an autoscaler and an upper bound on the replicas, the verdict is the same whatever the
-- liveness probe is.
pub validate_ignores_probe :
    (checks : Checks) (s : Spec) (a : AutoscalerSpec) (max : ℤ) (probe : Option Probe)
    → s.autoscaler ≡ some a
    → max_replicas s ≡ some max
    → validate_crd_spec checks (record s { liveness_probe = probe }) ≡ validate_crd_spec checks s
unfolding validate_crd_spec max_replicas check_mode check_prometheus
validate_ignores_probe checks s a max probe e m =
    ap
      (λ v. and_then (check_mode s) (
        and_then (check_prometheus checks s)
          (and_then (check_ports checks s.ports) ((no_ingress_mode s, no_ingress) ⟫ v))))
      (replicas_ignore_probe s a max (max_replicas s) probe e m)
