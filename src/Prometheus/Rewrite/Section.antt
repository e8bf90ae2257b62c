-- ===== src/Prometheus/Rewrite/Section.antt =====
-- The section of the target allocator.
use opentelemetry_operator.Prelude.{String, false, none, some, ◌≡◌, refl, sym, ◌∙◌, ◌==◌, ◌<+>◌}
use opentelemetry_operator.Yaml.{str, obj, Fields, find, set, remove}
use opentelemetry_operator.Yaml.Laws.{find-set, find-set_other, find-remove}
use opentelemetry_operator.Prometheus.Config.{valid, ◌>>=◌, component_at, bind_valid, valid_eq}
use opentelemetry_operator.Prometheus.Rewrite.{
  target_allocator_section, with_endpoint, add_ta_config_to_prom_config, with_sections,
}

module _ (service : String) where
  pub find-with_endpoint :
      (m : Fields)
      → find (with_endpoint m service) "endpoint" ≡ some (str ("http://" <+> service <+> ":80"))
  unfolding with_endpoint
  find-with_endpoint m =
      let endpoint = str ("http://" <+> service <+> ":80") in
      let m1 = set m "endpoint" endpoint in
      let m2 = set m1 "interval" (str "30s") in
      find-set_other m2 "collector_id" "endpoint" (str "${POD_NAME}") refl
      ∙ find-set_other m1 "interval" "endpoint" (str "30s") refl
      ∙ find-set m "endpoint" endpoint

  find-with_sections :
      (prometheus config section : Fields) (k : String)
      → ("target_allocator" == k) ≡ false
      → ("config" == k) ≡ false
      → find (with_sections prometheus config section service) k ≡ find prometheus k
  find-with_sections prometheus config section k other1 other2 =
      let m = set prometheus "target_allocator" (obj (with_endpoint section service)) in
      find-set_other m "config" k (obj (remove config "scrape_configs")) other2
      ∙ find-set_other prometheus "target_allocator" k (obj (with_endpoint section service)) other1

  pub sections :
      (prometheus config section : Fields)
      → (find (with_sections prometheus config section service) "target_allocator"
          ≡ some (obj (with_endpoint section service)))
        × (find (with_sections prometheus config section service) "config"
            ≡ some (obj (remove config "scrape_configs")))
  sections prometheus config section =
      let m = set prometheus "target_allocator" (obj (with_endpoint section service)) in
      let c = obj (remove config "scrape_configs") in
      (
        find-set_other m "config" "target_allocator" c refl
            ∙ find-set prometheus "target_allocator" (obj (with_endpoint section service)),
        find-set m "config" c,
      )

  -- What a rewriting without an error has read and written.
  pub written_sections :
      (prometheus new : Fields)
      → add_ta_config_to_prom_config prometheus service ≡ valid new
      → (config : Fields) × (section : Fields) × (new
          ≡ with_sections prometheus config section service)
  unfolding add_ta_config_to_prom_config
  written_sections prometheus new h =
      let (c, a, h1) =
        bind_valid (component_at prometheus "config" "prometheusConfig")
          (λ config.
            target_allocator_section prometheus
            >>= (λ section. valid (with_sections prometheus config section service)))
          new h in
      let (section, b, h2) =
        bind_valid (target_allocator_section prometheus)
          (λ section. valid (with_sections prometheus c section service)) new h1 in
      (c, section, sym (valid_eq (with_sections prometheus c section service) new h2))

  -- Where AddTAConfigToPromConfig returns no error, the receiver has the target allocator's endpoint and
  -- no scrape configurations, and the other sections are as they were.
  pub add_ta_config_to_prom_config-find :
      (prometheus new : Fields) (k : String)
      → ("target_allocator" == k) ≡ false
      → ("config" == k) ≡ false
      → add_ta_config_to_prom_config prometheus service ≡ valid new
      → ((section : Fields) × (find new "target_allocator" ≡ some (obj section))
          × (find section "endpoint" ≡ some (str ("http://" <+> service <+> ":80"))))
        × ((config : Fields) × (find new "config" ≡ some (obj config))
            × (find config "scrape_configs" ≡ none))
        × (find new k ≡ find prometheus k)
  add_ta_config_to_prom_config-find prometheus new k other1 other2 h =
      let (c, section, same) = written_sections prometheus new h in
      let (at_ta, at_config) = sections prometheus c section in
      rw same (
        (with_endpoint section service, at_ta, find-with_endpoint section),
        (remove c "scrape_configs", at_config, find-remove c "scrape_configs"),
        find-with_sections prometheus c section k other1 other2,
      )
