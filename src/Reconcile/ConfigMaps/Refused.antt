-- ===== src/Reconcile/ConfigMaps/Refused.antt =====
-- The config maps' task on a Prometheus receiver without a section `config`.
use opentelemetry_operator.Prelude.{true, none, some, ◌≡◌, refl}
use opentelemetry_operator.GoMap.{Range}
use opentelemetry_operator.Yaml.{Fields, find}
use opentelemetry_operator.Prometheus.Config.{
  valid, invalid, no_component, edit_scrape_configs, config_to_prom_config,
}
use opentelemetry_operator.Prometheus.Admission.{absent}
use opentelemetry_operator.Prometheus.Unescape.{unescape_dollar_signs_in_prom_config}
use opentelemetry_operator.Reconcile.Api.{Error, Api}
use opentelemetry_operator.Reconcile.Task.{Owner}
use opentelemetry_operator.Reconcile.Kinds.{ConfigData}
use opentelemetry_operator.Reconcile.Tasks.{Params, Built, desired_config_maps, config_maps}
use opentelemetry_operator.Reconcile.ConfigMaps.{
  ConfiguredCollector, Surroundings, desired_ta_config_map, with_config_maps,
}

module _ (e : Surroundings) (c : ConfiguredCollector) (prometheus : Fields)
    (found : config_to_prom_config e.yaml c.config ≡ valid prometheus)
    (missing : find prometheus "config" ≡ none) where
  desired_ta_config_map-no_component :
      desired_ta_config_map e c ≡ invalid (no_component "prometheusConfig")
  unfolding desired_ta_config_map unescape_dollar_signs_in_prom_config edit_scrape_configs
  desired_ta_config_map-no_component = rw (found, absent prometheus missing) refl

  -- Where the Prometheus receiver has no section `config`, the config maps' task of a collector with a
  -- target allocator returns an error, and has neither read nor written anything on the server.
  pub config_maps_refused :
      {R P : Type 0} (p : Params) (b : Built R P) (r : Range) (api : Api ConfigData)
      (owner : Owner ConfigData) (s : api.Server)
      → p.target_allocator_enabled ≡ true
      → config_maps p (with_config_maps e c b) r api owner s
        ≡ (some (Error.other "failed to parse config"), s)
  unfolding config_maps desired_config_maps
  config_maps_refused p b r api owner s enabled =
      rw (enabled, desired_ta_config_map-no_component) refl
