-- ===== src/Prometheus/Rewrite/Stable.antt =====
-- What the second rewriting of a receiver does.
use opentelemetry_operator.Prelude.{ℕ, suc, String, none, some, Option, ◌≡◌, refl, ◌<+>◌, ◌∙◌}
use opentelemetry_operator.Yaml.{
  Value, null, bool, num, str, seq, string_maps, obj, Items, nil, item, Fields, find, set, remove,
}
use opentelemetry_operator.Yaml.Laws.{find-set, find-set_other, set_same, remove_idem}
use opentelemetry_operator.Prometheus.Config.{
  Checked, valid, ◌>>=◌, each_item, with_configs, component_at, scrape_configs, edit_scrape_configs,
  bind_valid, valid_eq, edited_configs,
}
use opentelemetry_operator.Prometheus.Rewrite.{
  without_discovery, http_sd_configs, discover, rewrite_scrape_config,
  add_http_sd_config_to_prom_config, target_allocator_section, with_endpoint, with_sections,
  add_ta_config_to_prom_config,
}
use opentelemetry_operator.Prometheus.Rewrite.Section.{
  find-with_endpoint, sections, written_sections,
}
use opentelemetry_operator.Prometheus.Rewrite.Laws.{without_discovery-set}

pub component_at-found :
    (m n : Fields) (k component : String)
    → find m k ≡ some (obj n)
    → component_at m k component ≡ valid n
unfolding component_at
component_at-found m n k component e = rw (component_at, e) refl

pub scrape_configs-found :
    (m : Fields) (xs : Items)
    → find m "scrape_configs" ≡ some (seq xs)
    → scrape_configs m ≡ valid xs
unfolding scrape_configs
scrape_configs-found m xs e = rw (scrape_configs, e) refl

module _ (f : ℕ → Value → Checked Value)
    (again : (i : ℕ) (v w : Value) → f i v ≡ valid w → f i w ≡ valid w) where
  each_item_idem :
      (i : ℕ) (xs ys : Items) → each_item f i xs ≡ valid ys → each_item f i ys ≡ valid ys
  unfolding each_item
  each_item_idem i nil ys h = rw (← valid_eq nil ys h) refl
  each_item_idem i (item v xs) ys h =
      let (w, a, h1) =
        bind_valid (f i v) (λ w. each_item f (suc i) xs >>= (λ ys. valid (item w ys))) ys h in
      let (zs, b, h2) = bind_valid (each_item f (suc i) xs) (λ ys. valid (item w ys)) ys h1 in
      rw (← valid_eq (item w zs) ys h2, again i v w a, each_item_idem (suc i) xs zs b) refl

  written :
      (prometheus config : Fields) (ys : Items)
      → each_item f 0 ys ≡ valid ys
      → edit_scrape_configs f (with_configs prometheus config ys)
        ≡ valid (with_configs prometheus config ys)
  unfolding edit_scrape_configs
  written prometheus config ys h =
      let config1 = set config "scrape_configs" (seq ys) in
      let new = with_configs prometheus config ys in
      let in_config = find-set config "scrape_configs" (seq ys) in
      let in_new = find-set prometheus "config" (obj config1) in
      rw
        (
          component_at-found new config1 "config" "prometheusConfig" in_new,
          scrape_configs-found config1 ys in_config,
          h,
          set_same config1 "scrape_configs" (seq ys) in_config,
          set_same new "config" (obj config1) in_new,
        )
        refl

  -- A second change of the scrape configurations changes nothing if that of each one does not.
  edit_scrape_configs_idem :
      (prometheus new : Fields)
      → edit_scrape_configs f prometheus ≡ valid new
      → edit_scrape_configs f new ≡ valid new
  edit_scrape_configs_idem prometheus new h =
      let (config, xs, ys, e1, e2, done, same) = edited_configs f prometheus new h in
      rw same (written prometheus config ys (each_item_idem 0 xs ys done))

module _ (service : String) where
  discover_idem :
      (i : ℕ) (m : Fields) (w : Value) (v : Option Value)
      → find (without_discovery m) "job_name" ≡ v
      → discover service i (without_discovery m) ≡ valid w
      → rewrite_scrape_config service i w ≡ valid w
  unfolding discover rewrite_scrape_config
  discover_idem i m w none e h = absurd (cc (rw (discover, e) at h))
  discover_idem i m w (some (str job)) e h =
      let list = http_sd_configs service job in
      let n = set (without_discovery m) "http_sd_configs" list in
      let same : obj n ≡ w = valid_eq (obj n) w (rw (discover, e) at h) in
      rw (← same) (rw (without_discovery-set m list) (rw (discover, e) refl))
  discover_idem i m w (some null) e h = absurd (cc (rw (discover, e) at h))
  discover_idem i m w (some (bool b)) e h = absurd (cc (rw (discover, e) at h))
  discover_idem i m w (some (num n)) e h = absurd (cc (rw (discover, e) at h))
  discover_idem i m w (some (seq xs)) e h = absurd (cc (rw (discover, e) at h))
  discover_idem i m w (some (string_maps xs)) e h = absurd (cc (rw (discover, e) at h))
  discover_idem i m w (some (obj n)) e h = absurd (cc (rw (discover, e) at h))

  rewrite_scrape_config_idem :
      (i : ℕ) (v w : Value)
      → rewrite_scrape_config service i v ≡ valid w
      → rewrite_scrape_config service i w ≡ valid w
  unfolding rewrite_scrape_config
  rewrite_scrape_config_idem i (obj m) w h =
      discover_idem i m w (find (without_discovery m) "job_name") refl h
  rewrite_scrape_config_idem i null w h = absurd (cc h)
  rewrite_scrape_config_idem i (bool b) w h = absurd (cc h)
  rewrite_scrape_config_idem i (num n) w h = absurd (cc h)
  rewrite_scrape_config_idem i (str s) w h = absurd (cc h)
  rewrite_scrape_config_idem i (seq x) w h = absurd (cc h)
  rewrite_scrape_config_idem i (string_maps x) w h = absurd (cc h)

  pub add_http_sd_config_to_prom_config_idem :
      (prometheus new : Fields)
      → add_http_sd_config_to_prom_config prometheus service ≡ valid new
      → add_http_sd_config_to_prom_config new service ≡ valid new
  unfolding add_http_sd_config_to_prom_config
  add_http_sd_config_to_prom_config_idem prometheus new h =
      edit_scrape_configs_idem (rewrite_scrape_config service) rewrite_scrape_config_idem prometheus
        new h

  with_endpoint_idem :
      (m : Fields) → with_endpoint (with_endpoint m service) service ≡ with_endpoint m service
  unfolding with_endpoint
  with_endpoint_idem m =
      let endpoint = str ("http://" <+> service <+> ":80") in
      let m1 = set m "endpoint" endpoint in
      let m2 = set m1 "interval" (str "30s") in
      let n = with_endpoint m service in
      let at_interval =
        find-set_other m2 "collector_id" "interval" (str "${POD_NAME}") refl
        ∙ find-set m1 "interval" (str "30s") in
      rw
        (
          set_same n "endpoint" endpoint (find-with_endpoint service m),
          set_same n "interval" (str "30s") at_interval,
          set_same n "collector_id" (str "${POD_NAME}")
              (find-set m2 "collector_id" (str "${POD_NAME}")),
        )
        refl

  found_section :
      (m n : Fields)
      → find m "target_allocator" ≡ some (obj n)
      → target_allocator_section m ≡ valid n
  unfolding target_allocator_section
  found_section m n e = rw (target_allocator_section, e) refl

  with_sections_idem :
      (prometheus config section : Fields)
      → add_ta_config_to_prom_config (with_sections prometheus config section service) service
        ≡ valid (with_sections prometheus config section service)
  unfolding add_ta_config_to_prom_config
  with_sections_idem prometheus config section =
      let new = with_sections prometheus config section service in
      let config1 = remove config "scrape_configs" in
      let section1 = with_endpoint section service in
      let (at_ta, at_config) = sections service prometheus config section in
      rw
        (
          component_at-found new config1 "config" "prometheusConfig" at_config,
          found_section new section1 at_ta,
          with_endpoint_idem section,
          remove_idem config "scrape_configs",
          set_same new "target_allocator" (obj section1) at_ta,
          set_same new "config" (obj config1) at_config,
        )
        refl

  pub add_ta_config_to_prom_config_idem :
      (prometheus new : Fields)
      → add_ta_config_to_prom_config prometheus service ≡ valid new
      → add_ta_config_to_prom_config new service ≡ valid new
  add_ta_config_to_prom_config_idem prometheus new h =
      let (config, section, same) = written_sections service prometheus new h in
      rw same (with_sections_idem prometheus config section)
