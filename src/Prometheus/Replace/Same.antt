-- ===== src/Prometheus/Replace/Same.antt =====
-- The rewritten receiver and its place in the configuration, whatever the order of the maps' keys.
use opentelemetry_operator.Prelude.{◌≡◌, Bool-cases, inl, inr}
use opentelemetry_operator.Yaml.{Fields}
use opentelemetry_operator.Yaml.Same.{Same, same_obj, Same-set}
use opentelemetry_operator.Upgrade.Middle.{map_at}
use opentelemetry_operator.Prometheus.Config.{valid}
use opentelemetry_operator.Prometheus.Rewrite.Same.{
  Follows, add_http_sd_config_to_prom_config-Same, add_ta_config_to_prom_config-Same,
}
use opentelemetry_operator.Prometheus.Replace.{Replacement, rewritten, with_prometheus}

pub with_prometheus-Same :
    (m n u v : Fields)
    → Same m n
    → Same (map_at m "receivers") (map_at n "receivers")
    → Same u v
    → Same (with_prometheus m u) (with_prometheus n v)
with_prometheus-Same m n u v s s1 s2 =
    Same-set m n "receivers" _ _ s (same_obj (Same-set _ _ "prometheus" _ _ s1 (same_obj s2)))

pub rewritten-Same :
    (r : Replacement) (m n new : Fields)
    → Same m n
    → rewritten r m ≡ valid new
    → Follows Same new (rewritten r n)
rewritten-Same r m n new s h = elim (Bool-cases r.rewrite_enabled) [
  | inl e ↦ rw e (add_ta_config_to_prom_config-Same r.service m n new s (rw e at h))
  | inr e ↦ rw e (add_http_sd_config_to_prom_config-Same r.service m n new s (rw e at h))
]
