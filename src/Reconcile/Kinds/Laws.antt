-- ===== src/Reconcile/Kinds/Laws.antt =====
-- Each kind is lawful: what was patched is not replaced, and patching it again changes nothing.
use opentelemetry_operator.Prelude.{
  String, Bool, true, false, List, [], ◌∷◌, Option, none, some, ◌≡◌, refl, arith, eq_refl, ap,
}
use opentelemetry_operator.GoMap.{Map, get, keys}
use opentelemetry_operator.Reconcile.Task.{Kind, Lawful}
use opentelemetry_operator.Reconcile.Kinds.{
  same_option, agree, equal_maps, workload_kind, Claim, StatefulSetSpec, default_mode,
  claim_changed, has_volume_claims_templates_changed, default_modes, has_immutable_field_change,
  stateful_set_kind, service_kind,
}

-- The specification is not replaced, and patching it changes nothing.
abbrev pub Fixed : {S : Type 0} → Kind S → S → S → Type 0
Fixed kind e d = (kind.replaced d e ≡ false) × (kind.merge e d ≡ e)

same_option_self : (o : Option String) → same_option o o ≡ true
same_option_self none = refl
same_option_self (some v) = eq_refl v

agree_self : (ks : List String) (m : Map String) → agree ks m m ≡ true
unfolding agree
agree_self [] m = refl
agree_self (k ∷ ks) m = rw (same_option_self (get m k), agree_self ks m) refl

pub equal_maps_self : (m : Map String) → equal_maps m m ≡ true
unfolding equal_maps
equal_maps_self m = rw (agree_self (keys m) m) refl

module _ {R : Type 0} where
  unfoldable pub workload-Lawful : Lawful (workload_kind {R = R})
  unfolding workload_kind
  workload-Lawful = record {
    Has = Fixed workload_kind;
    has_self = λ d. (rw (equal_maps_self d.selector) refl, refl);
    has-merge = λ e d h. (rw (equal_maps_self d.selector) refl, refl);
    has-replaced = λ e d h. h.0;
  }

  unfoldable pub service-Lawful : {P : Type 0} → Lawful (service_kind {R = R} {P = P})
  unfolding service_kind
  service-Lawful = record {
    Has = Fixed service_kind;
    has_self = λ d. (refl, refl);
    has-merge = λ e d h. (refl, refl);
    has-replaced = λ e d h. h.0;
  }

module _ {R : Type 0} (same : R → R → Bool) (same_self : (x : R) → same x x ≡ true) where
  claim_self : (d : Claim R) → claim_changed same d d ≡ false
  unfolding claim_changed default_mode
  claim_self d = ground (
    arith,
    eq_refl d.name,
    equal_maps_self d.annotations,
    same_option_self d.volume_mode,
    same_self d.rest,
  )

  claim-default :
      (d e : Claim R)
      → claim_changed same d e ≡ false
      → claim_changed same d (default_mode same d e) ≡ false
  unfolding claim_changed default_mode
  claim-default d e h = ground (
    arith,
    h,
    eq_refl d.name,
    equal_maps_self d.annotations,
    same_option_self d.volume_mode,
    same_option_self e.volume_mode,
    same_self d.rest,
  )

  changed_self : (ds : List (Claim R)) → has_volume_claims_templates_changed same ds ds ≡ false
  unfolding has_volume_claims_templates_changed
  changed_self [] = refl
  changed_self (d ∷ ds) = rw (claim_self d, changed_self ds) refl

  changed-default :
      (ds es : List (Claim R))
      → has_volume_claims_templates_changed same ds es ≡ false
      → has_volume_claims_templates_changed same ds (default_modes same ds es) ≡ false
  unfolding has_volume_claims_templates_changed default_modes
  changed-default [] [] h = refl
  changed-default [] (e ∷ es) h = refl
  changed-default (d ∷ ds) [] h = cc h
  changed-default (d ∷ ds) (e ∷ es) h = ground (arith, h, claim-default d e, changed-default ds es)

  default_mode_self : (d : Claim R) → default_mode same d d ≡ d
  unfolding default_mode
  default_mode_self d = ground arith

  default_modes_self : (ds : List (Claim R)) → default_modes same ds ds ≡ ds
  unfolding default_modes
  default_modes_self [] = refl
  default_modes_self (d ∷ ds) = rw (default_mode_self d, default_modes_self ds) refl

  default_mode_twice :
      (d e : Claim R) → default_mode same d (default_mode same d e) ≡ default_mode same d e
  unfolding default_mode
  default_mode_twice d e = ground arith

  default_modes_twice :
      (ds es : List (Claim R))
      → default_modes same ds (default_modes same ds es) ≡ default_modes same ds es
  unfolding default_modes
  default_modes_twice [] [] = refl
  default_modes_twice [] (e ∷ es) = refl
  default_modes_twice (d ∷ ds) [] = rw (default_mode_self d, default_modes_self ds) refl
  default_modes_twice (d ∷ ds) (e ∷ es) =
      rw (default_mode_twice d e, default_modes_twice ds es) refl

  pub immutable_self : (d : StatefulSetSpec R) → has_immutable_field_change same d d ≡ false
  unfolding has_immutable_field_change
  immutable_self d = rw (equal_maps_self d.selector, changed_self d.claims) refl

  pub immutable-default :
      (e d : StatefulSetSpec R)
      → has_immutable_field_change same d e ≡ false
      → has_immutable_field_change same d
          (record d { claims = default_modes same d.claims e.claims })
        ≡ false
  unfolding has_immutable_field_change
  immutable-default e d h =
      ground (arith, h, equal_maps_self d.selector, changed-default d.claims e.claims)

  pub defaults_self :
      (d : StatefulSetSpec R) → record d { claims = default_modes same d.claims d.claims } ≡ d
  defaults_self d = ap (λ c. record d { claims = c }) (default_modes_self d.claims)

  pub defaults_twice :
      (e d : StatefulSetSpec R)
      → record d { claims = default_modes same d.claims (default_modes same d.claims e.claims) }
        ≡ record d { claims = default_modes same d.claims e.claims }
  defaults_twice e d = ap (λ c. record d { claims = c }) (default_modes_twice d.claims e.claims)

  unfoldable pub stateful_set-Lawful : Lawful (stateful_set_kind same)
  unfolding stateful_set_kind
  stateful_set-Lawful = record {
    Has = Fixed (stateful_set_kind same);
    has_self = λ d. (immutable_self d, defaults_self d);
    has-merge = λ e d h. (immutable-default e d h, defaults_twice e d);
    has-replaced = λ e d h. h.0;
  }
