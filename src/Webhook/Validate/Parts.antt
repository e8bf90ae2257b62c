-- ===== src/Webhook/Validate/Parts.antt =====
-- What each of the checks of validateCRDSpec has said of an accepted spec.
use opentelemetry_operator.Prelude.{Bool, true, false, ◌≡◌, refl}
use opentelemetry_operator.Webhook.Types.{Spec}
use opentelemetry_operator.Webhook.Validate.{
  Reason, no_ingress, Verdict, accept, reject, panic, ◌⟫◌, and_then, Checks, max_replicas,
  check_mode, check_replicas, check_ports, check_prometheus, validate_crd_spec, no_ingress_mode,
}

pub and_then-accept : (a b : Verdict) → and_then a b ≡ accept → (a ≡ accept) × (b ≡ accept)
and_then-accept accept b e = (refl, e)
and_then-accept (reject r) b e = absurd (cc)
and_then-accept panic b e = absurd (cc)

pub guard-accept :
    (b : Bool) (r : Reason) (rest : Verdict)
    → ((b, r) ⟫ rest) ≡ accept
    → (b ≡ false) × (rest ≡ accept)
guard-accept true r rest e = absurd (cc)
guard-accept false r rest e = (refl, e)

pub parts_of :
    (checks : Checks) (s : Spec)
    → validate_crd_spec checks s ≡ accept
    → (check_mode s ≡ accept)
      × (check_prometheus checks s ≡ accept)
      × (check_replicas s (max_replicas s) ≡ accept)
unfolding validate_crd_spec
parts_of checks s e =
    let (a, e1) = and_then-accept (check_mode s) _ e in
    let (b, e2) = and_then-accept (check_prometheus checks s) _ e1 in
    let (c, e3) = and_then-accept (check_ports checks s.ports) _ e2 in
    let (d, e4) = guard-accept (no_ingress_mode s) no_ingress _ e3 in (a, b, e4)
