-- ===== src/Webhook/Validate/Receiver.antt =====
-- The part of validateCRDSpec that reads the Prometheus receiver.
use opentelemetry_operator.Prelude.{String, true, Option, none, some, ◌≡◌, refl, ap}
use opentelemetry_operator.Yaml.{Fields}
use opentelemetry_operator.Webhook.Types.{Spec}
use opentelemetry_operator.Webhook.Validate.{
  accept, ◌⟫◌, and_then, no_ingress, Checks, check_mode, check_receiver, check_prometheus,
  check_ports, check_replicas, check_rest, max_replicas, min_replicas, validate_crd_spec,
  no_ingress_mode,
}
use opentelemetry_operator.Prometheus.Config.{
  Problem, Checked, valid, invalid, config_to_prom_config, validate_prom_config,
}

module _ (checks : Checks) (s : Spec) where
  no_problem :
      (m : Fields) (o : Option Problem)
      → validate_prom_config m s.target_allocator.enabled checks.rewrite_enabled ≡ o
      → check_receiver checks s (valid m) ≡ accept
      → o ≡ none
  no_problem m none e h = refl
  no_problem m (some p) e h = absurd (cc (rw (check_receiver, e) at h))

  receiver-accept :
      (c : Checked Fields)
      → check_receiver checks s c ≡ accept
      → (m : Fields) × (c ≡ valid m)
        × (validate_prom_config m s.target_allocator.enabled checks.rewrite_enabled ≡ none)
  receiver-accept (valid m) h = (m, refl, no_problem m _ refl h)
  receiver-accept (invalid p) h = absurd (cc h)

  -- With a target allocator, the check that accepts has found a receiver that is valid.
  pub check_prometheus-valid :
      s.target_allocator.enabled ≡ true
      → check_prometheus checks s ≡ accept
      → (m : Fields) × (config_to_prom_config checks.yaml s.config ≡ valid m)
        × (validate_prom_config m s.target_allocator.enabled checks.rewrite_enabled ≡ none)
  unfolding check_prometheus
  check_prometheus-valid enabled h =
      receiver-accept (config_to_prom_config checks.yaml s.config)
        (rw (check_prometheus, enabled) at h)

  pub check_prometheus-accept :
      (m : Fields)
      → config_to_prom_config checks.yaml s.config ≡ valid m
      → validate_prom_config m true checks.rewrite_enabled ≡ none
      → s.target_allocator.enabled ≡ true
      → check_prometheus checks s ≡ accept
  unfolding check_prometheus
  check_prometheus-accept m found no_error enabled =
      rw (check_prometheus, enabled, found, check_receiver, enabled, no_error) refl

  -- The verdict depends on the configuration only by the check of the Prometheus receiver.
  pub validate-config :
      (config : String)
      → check_prometheus checks (record s { config = config }) ≡ check_prometheus checks s
      → validate_crd_spec checks (record s { config = config }) ≡ validate_crd_spec checks s
  unfolding validate_crd_spec check_mode check_replicas check_rest max_replicas min_replicas
  validate-config config e =
      ap
        (λ v. and_then (check_mode s) (
          and_then v (
            and_then (check_ports checks s.ports)
              ((no_ingress_mode s, no_ingress) ⟫ check_replicas s (max_replicas s)))))
        e
