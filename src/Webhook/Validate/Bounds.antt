-- ===== src/Webhook/Validate/Bounds.antt =====
-- What an accepted OpenTelemetryCollector satisfies.
use opentelemetry_operator.Prelude.{false, some, ◌≡◌}
use opentelemetry_operator.Prelude.Int.{ℤ, pos, lt_int}
use opentelemetry_operator.Webhook.Types.{Spec}
use opentelemetry_operator.Webhook.Validate.Parts.{guard-accept, parts_of}
use opentelemetry_operator.Webhook.Validate.{
  accept, below, above, Checks, max_replicas, min_replicas, check_replicas, validate_crd_spec,
}

-- An upper bound on the replicas is one or more, no less than the replicas, and no less than a lower
-- bound, which is one or more.
pub record IsBounded (s : Spec) (max : ℤ) : Type 0 where
  pub positive : lt_int max (pos 1) ≡ false
  pub replicas : above s.replicas max ≡ false
  pub ordered : above (min_replicas s) max ≡ false
  pub lower : below (min_replicas s) (pos 1) ≡ false

check_replicas-IsBounded :
    (s : Spec) (max : ℤ) → check_replicas s (some max) ≡ accept → IsBounded s max
unfolding check_replicas
check_replicas-IsBounded s max e =
    let (a, e1) = guard-accept (lt_int max (pos 1)) _ _ e in
    let (b, e2) = guard-accept (above s.replicas max) _ _ e1 in
    let (c, e3) = guard-accept (above (min_replicas s) max) _ _ e2 in
    let (d, e4) = guard-accept (below (min_replicas s) (pos 1)) _ _ e3 in
    record { positive = a; replicas = b; ordered = c; lower = d }

-- An accepted spec with an upper bound on its replicas, of the autoscaler or of the deprecated field,
-- has bounds in order: the bound is one or more, the replicas and the lower bound do not exceed it,
-- and the lower bound is one or more.
pub validate-IsBounded :
    (checks : Checks) (s : Spec) (max : ℤ)
    → validate_crd_spec checks s ≡ accept
    → max_replicas s ≡ some max
    → IsBounded s max
validate-IsBounded checks s max e m =
    let (a, b, c) = parts_of checks s e in check_replicas-IsBounded s max (rw m at c)
