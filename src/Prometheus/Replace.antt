-- ===== src/Prometheus/Replace.antt =====
-- pkg/collector/reconcile/config_replace.go: the configuration that the collectors get.
pub mod Laws
pub mod Same
pub mod Stable
use opentelemetry_operator.Prelude.{String, Bool, true, false, Option, none, some, if◌then◌else◌}
use opentelemetry_operator.Yaml.{obj, Fields, set}
use opentelemetry_operator.Upgrade.Types.{Yaml}
use opentelemetry_operator.Upgrade.Middle.{map_at}
use opentelemetry_operator.Prometheus.Config.{
  Checked, valid, invalid, Problem, cannot_marshal, ◌>>=◌, config_from_string,
  config_to_prom_config, validate_prom_config,
}
use opentelemetry_operator.Prometheus.Rewrite.{
  add_http_sd_config_to_prom_config, add_ta_config_to_prom_config,
}

-- What ReplaceConfig reads: the feature gate is that of the rewriting, the service naming.TAService's.
pub record Replacement : Type 0 where
  pub config : String
  pub target_allocator_enabled : Bool
  pub rewrite_enabled : Bool
  pub service : String

abbrev pub checked : Option Problem → Fields → Checked Fields
checked none m = valid m
checked (some p) m = invalid p

abbrev pub rewritten : Replacement → Fields → Checked Fields
rewritten r prometheus =
    if r.rewrite_enabled
    then add_ta_config_to_prom_config prometheus r.service
    else add_http_sd_config_to_prom_config prometheus r.service

abbrev pub with_prometheus : Fields → Fields → Fields
with_prometheus config prometheus =
    set config "receivers" (obj (set (map_at config "receivers") "prometheus" (obj prometheus)))

module _ (y : Yaml) where
  abbrev pub printed : Fields → Checked String
  printed m = elim (y.marshal m) [ none ↦ invalid cannot_marshal | some s ↦ valid s ]

  -- The configuration that is to be printed.
  abbrev pub updated_config : Replacement → Checked Fields
  updated_config r = do
    config ← config_from_string y r.config
    prometheus ← config_to_prom_config y r.config
    accepted ←
        checked (validate_prom_config prometheus r.target_allocator_enabled r.rewrite_enabled)
          prometheus
    updated ← rewritten r accepted
    valid (with_prometheus config updated)

  abbrev pub replace_enabled : Replacement → Checked String
  replace_enabled r = updated_config r >>= printed

  unfoldable pub replace_config : Replacement → Checked String
  replace_config r = elim r.target_allocator_enabled [
    | false ↦ valid r.config
    | true ↦ replace_enabled r
  ]
