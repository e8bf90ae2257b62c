-- ===== src/Prometheus/Admission.antt =====
-- The validating webhook and ReplaceConfig on one collector: what an accepted spec means for the
-- configuration that the collectors get.
use opentelemetry_operator.Prelude.{
  String, true, false, none, some, ◌≡◌, refl, ◌==◌, ◌∙◌, sym, subst, Bool-cases, inl, inr,
}
use opentelemetry_operator.Yaml.{Fields, find}
use opentelemetry_operator.Yaml.Same.{Same, SameAt}
use opentelemetry_operator.Upgrade.Middle.{map_at}
use opentelemetry_operator.Webhook.Types.{Spec}
use opentelemetry_operator.Webhook.Validate.{Checks, accept, validate_crd_spec}
use opentelemetry_operator.Webhook.Validate.Parts.{parts_of}
use opentelemetry_operator.Webhook.Validate.Receiver.{
  check_prometheus-valid, check_prometheus-accept, validate-config,
}
use opentelemetry_operator.Prometheus.Config.{
  no_component, valid, invalid, ◌>>=◌, component_at, config_to_prom_config, validate_prom_config,
  valid_eq, edit_scrape_configs,
}
use opentelemetry_operator.Prometheus.Rewrite.{
  add_http_sd_config_to_prom_config, add_ta_config_to_prom_config,
}
use opentelemetry_operator.Prometheus.Rewrite.Same.{validate_prom_config-Same}
use opentelemetry_operator.Prometheus.Replace.{
  Replacement, rewritten, with_prometheus, printed, replace_config,
}
use opentelemetry_operator.Prometheus.Replace.Laws.{
  config_to_prom_config-find, config_to_prom_config-found, from_parsed,
  validate_prom_config-rewritten,
}
use opentelemetry_operator.Prometheus.Replace.Stable.{
  IsReplaced, ReadsBack, replace_enabled-IsReplaced, found_again, find-with_prometheus,
}

-- What ReplaceConfig reads of a collector.
abbrev pub replacement : Checks → Spec → String → Replacement
replacement checks s service = record {
  config = s.config;
  target_allocator_enabled = s.target_allocator.enabled;
  rewrite_enabled = checks.rewrite_enabled;
  service = service;
}

pub absent :
    (m : Fields)
    → find m "config" ≡ none
    → component_at m "config" "prometheusConfig" ≡ invalid (no_component "prometheusConfig")
unfolding component_at
absent m e = rw (component_at, e) refl

no_section :
    (r : Replacement) (prometheus : Fields)
    → find prometheus "config" ≡ none
    → rewritten r prometheus ≡ invalid (no_component "prometheusConfig")
unfolding add_http_sd_config_to_prom_config add_ta_config_to_prom_config edit_scrape_configs
no_section r prometheus e =
    let missing : component_at prometheus "config" "prometheusConfig"
        ≡ invalid (no_component "prometheusConfig") =
      absent prometheus e in
    elim (Bool-cases r.rewrite_enabled) [
      | inl b ↦ rw (b, missing) refl
      | inr b ↦ rw (b, missing) refl
    ]

module _ (checks : Checks) (s : Spec) (enabled : s.target_allocator.enabled ≡ true)
    (accepted : validate_crd_spec checks s ≡ accept) where
  -- The receiver that the webhook has found.
  admitted :
      (prometheus : Fields) × (config_to_prom_config checks.yaml s.config ≡ valid prometheus)
      × (validate_prom_config prometheus s.target_allocator.enabled checks.rewrite_enabled ≡ none)
  admitted = let (a, b, c) = parts_of checks s accepted in check_prometheus-valid checks s enabled b

  -- Only the rewriting of the receiver and the printing can fail.
  replace_config-accepted :
      (service : String)
      → (config : Fields) × (prometheus : Fields) × (checks.yaml.parse s.config ≡ some config)
        × (config_to_prom_config checks.yaml s.config ≡ valid prometheus)
        × (replace_config checks.yaml (replacement checks s service) ≡ (
            rewritten (replacement checks s service) prometheus
            >>= (λ u. valid (with_prometheus config u))
            >>= printed checks.yaml))
  unfolding replace_config
  replace_config-accepted service =
      let (m, found, no_error) = admitted in
      let (config, receivers, e1, e2, e3) =
        config_to_prom_config-find checks.yaml s.config m found in
      let r = replacement checks s service in
      (
        config,
        m,
        e1,
        found,
        rw (replace_config, enabled)
            (rw (from_parsed checks.yaml s.config config e1, found, no_error) refl),
      )

  -- Where the accepted receiver has no section `config`, as a section `target_allocator` or the
  -- feature gate of the rewriting allows, ReplaceConfig fails for the want of that section.
  pub replace_config-no_component :
      (service : String) (prometheus : Fields)
      → config_to_prom_config checks.yaml s.config ≡ valid prometheus
      → find prometheus "config" ≡ none
      → replace_config checks.yaml (replacement checks s service)
        ≡ invalid (no_component "prometheusConfig")
  replace_config-no_component service prometheus found missing =
      let (config, m, e, found1, run) = replace_config-accepted service in
      let same : valid m ≡ valid prometheus = sym found1 ∙ found in
      let r = replacement checks s service in
      run ∙ rw (no_section r m (rw (sym (valid_eq m prometheus same)) at missing)) refl

  run_of :
      (service out : String)
      → replace_config checks.yaml (replacement checks s service) ≡ valid out
      → IsReplaced checks.yaml (replacement checks s service) out
  unfolding replace_config
  run_of service out h =
      replace_enabled-IsReplaced checks.yaml (replacement checks s service) out
        (rw (replace_config, enabled) at h)

  -- Where ReplaceConfig returns a configuration for an accepted spec with a target allocator, and what
  -- is printed reads back as the same maps but for the order of their keys, the webhook accepts the spec
  -- with it too; its receiver is the one that was rewritten, and its other sections and other receivers
  -- are as they were, the order of keys apart.
  pub replace_config-accept :
      (service out j k : String)
      → ReadsBack checks.yaml (replacement checks s service) out
      → ("receivers" == j) ≡ false
      → ("prometheus" == k) ≡ false
      → replace_config checks.yaml (replacement checks s service) ≡ valid out
      → (validate_crd_spec checks (record s { config = out }) ≡ accept)
        × ((config : Fields) × (new : Fields) × (prometheus : Fields) × (updated : Fields)
            × (again : Fields) × (checks.yaml.parse s.config ≡ some config)
            × (checks.yaml.parse out ≡ some new)
            × (config_to_prom_config checks.yaml s.config ≡ valid prometheus)
            × (config_to_prom_config checks.yaml out ≡ valid again)
            × (rewritten (replacement checks s service) prometheus ≡ valid updated)
            × Same updated again
            × SameAt (find config j) (find new j)
            × SameAt (find (map_at config "receivers") k) (find (map_at new "receivers") k))
  replace_config-accept service out j k reads_back other1 other2 h =
      let r = replacement checks s service in
      let p = run_of service out h in
      let (new, is_parsed, s1) = reads_back (with_prometheus p.config p.updated) p.is_updated in
      let (again, found, s2, s3) = found_again checks.yaml r out p new is_parsed s1 in
      let no_error =
        sym (validate_prom_config-Same p.updated again r.rewrite_enabled s2)
        ∙ validate_prom_config-rewritten r p.prometheus p.updated p.is_rewritten in
      let checked =
        check_prometheus-accept checks (record s { config = out }) again found no_error enabled in
      let (a, b, c) = parts_of checks s accepted in
      let first =
        config_to_prom_config-found checks.yaml s.config p.config p.receivers p.prometheus
          p.is_parsed p.has_receivers p.has_prometheus in
      let (kept, kept_receivers) = find-with_prometheus p.config p.updated j k other1 other2 in
      (
        validate-config checks s out (checked ∙ sym b) ∙ accepted,
        (
          p.config,
          new,
          p.prometheus,
          p.updated,
          again,
          p.is_parsed,
          is_parsed,
          first,
          found,
          p.is_rewritten,
          s2,
          subst (λ o. SameAt o (find new j)) kept (s1 j),
          subst (λ o. SameAt o (find (map_at new "receivers") k)) kept_receivers (s3 k),
        ),
      )
