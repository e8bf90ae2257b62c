-- ===== src/Prometheus/Replace/Laws.antt =====
-- What ReplaceConfig reads and writes, and what it does to its own result.
use opentelemetry_operator.Prelude.{
  String, true, false, Option, none, some, ◌≡◌, refl, Bool-cases, inl, inr, is_some,
}
use opentelemetry_operator.Yaml.{obj, Fields, find}
use opentelemetry_operator.Yaml.Laws.{find-set}
use opentelemetry_operator.Upgrade.Types.{Yaml}
use opentelemetry_operator.Prometheus.Config.{
  valid, ◌>>=◌, config_from_string, config_to_prom_config, component_at, find-component_at,
  validate_prom_config, bind_valid, edited_configs,
}
use opentelemetry_operator.Prometheus.Rewrite.{
  add_http_sd_config_to_prom_config, rewrite_scrape_config,
}
use opentelemetry_operator.Prometheus.Rewrite.Stable.{
  component_at-found, add_http_sd_config_to_prom_config_idem, add_ta_config_to_prom_config_idem,
}
use opentelemetry_operator.Prometheus.Replace.{Replacement, rewritten}

pub rewritten_idem :
    (r : Replacement) (prometheus new : Fields)
    → rewritten r prometheus ≡ valid new
    → rewritten r new ≡ valid new
rewritten_idem r prometheus new h = elim (Bool-cases r.rewrite_enabled) [
  | inl e ↦ rw e (add_ta_config_to_prom_config_idem r.service prometheus new (rw e at h))
  | inr e ↦ rw e (add_http_sd_config_to_prom_config_idem r.service prometheus new (rw e at h))
]

present : (m : Fields) → is_some (find m "config") ≡ true → validate_prom_config m true false ≡ none
unfolding validate_prom_config
present m e = rw (validate_prom_config, e) refl

-- A receiver that has been rewritten passes the check of the target allocator.
pub validate_prom_config-rewritten :
    (r : Replacement) (prometheus new : Fields)
    → rewritten r prometheus ≡ valid new
    → validate_prom_config new true r.rewrite_enabled ≡ none
unfolding validate_prom_config add_http_sd_config_to_prom_config
validate_prom_config-rewritten r prometheus new h = elim (Bool-cases r.rewrite_enabled) [
  | inl e ↦ rw e refl
  | inr e ↦
      let (config, xs, ys, e1, e2, done, same) =
        edited_configs (rewrite_scrape_config r.service) prometheus new (rw e at h) in
      rw (e, same) (present _ (rw (find-set prometheus "config" _) refl))
]

module _ (y : Yaml) where
  pub parsed :
      (s : String) (m : Fields) (o : Option Fields)
      → y.parse s ≡ o
      → config_from_string y s ≡ valid m
      → o ≡ some m
  unfolding config_from_string
  parsed s m none e h = absurd (cc (rw (config_from_string, e) at h))
  parsed s m (some n) e h =
      let same : valid n ≡ valid m = rw (config_from_string, e) at h in cc same

  -- The receiver in a configuration, where ConfigToPromConfig finds one.
  pub config_to_prom_config-find :
      (s : String) (prometheus : Fields)
      → config_to_prom_config y s ≡ valid prometheus
      → (config : Fields) × (receivers : Fields) × (y.parse s ≡ some config)
        × (find config "receivers" ≡ some (obj receivers))
        × (find receivers "prometheus" ≡ some (obj prometheus))
  unfolding config_to_prom_config
  config_to_prom_config-find s prometheus h =
      let (config, a, h1) =
        bind_valid (config_from_string y s)
          (λ config.
            component_at config "receivers" "receivers"
            >>= (λ receivers. component_at receivers "prometheus" "prometheus"))
          prometheus h in
      let (receivers, b, h2) =
        bind_valid (component_at config "receivers" "receivers")
          (λ receivers. component_at receivers "prometheus" "prometheus") prometheus h1 in
      (
        config,
        receivers,
        parsed s config (y.parse s) refl a,
        find-component_at config receivers "receivers" "receivers" b,
        find-component_at receivers prometheus "prometheus" "prometheus" h2,
      )

  pub from_parsed :
      (s : String) (m : Fields) → y.parse s ≡ some m → config_from_string y s ≡ valid m
  unfolding config_from_string
  from_parsed s m e = rw (config_from_string, e) refl

  pub config_to_prom_config-found :
      (s : String) (config receivers prometheus : Fields)
      → y.parse s ≡ some config
      → find config "receivers" ≡ some (obj receivers)
      → find receivers "prometheus" ≡ some (obj prometheus)
      → config_to_prom_config y s ≡ valid prometheus
  unfolding config_to_prom_config
  config_to_prom_config-found s config receivers prometheus e1 e2 e3 =
      rw
        (
          from_parsed s config e1,
          component_at-found config receivers "receivers" "receivers" e2,
          component_at-found receivers prometheus "prometheus" "prometheus" e3,
        )
        refl
