-- ===== src/Prometheus/Rewrite.antt =====
-- AddHTTPSDConfigToPromConfig and AddTAConfigToPromConfig, with url.QueryEscape.
pub mod Escape
pub mod Laws
pub mod Section
pub mod Stable
pub mod Same
use opentelemetry_operator.Prelude.{
  ℕ, String, Bool, true, false, Option, none, some, not, ◌&&◌, ◌||◌, ◌<+>◌, contains, has_suffix,
  if◌then◌else◌,
}
use opentelemetry_operator.Yaml.{
  Value, null, str, seq, obj, Items, nil, item, Fields, end, field, find, set, remove, as_map,
}
use opentelemetry_operator.Prometheus.Config.{
  Checked, valid, invalid, Problem, not_a_map, not_a_map_at, not_a_string_at, ◌>>=◌, each_item,
  edit_scrape_configs, component_at,
}
use opentelemetry_operator.Prometheus.Rewrite.Escape.{query_escape}

-- The regular expression ^.*(sd|static)_configs$, whose `.` is no line break.
unfoldable pub is_discovery : String → Bool
is_discovery k =
    not (contains k "\n") && (has_suffix k "sd_configs" || has_suffix k "static_configs")

unfoldable pub without_discovery : Fields → Fields
without_discovery end = end
without_discovery (field k v m) =
    let rest = without_discovery m in if is_discovery k then rest else field k v rest

-- The list with the endpoint of a job; the code's map there is a map[string]interface{}.
unfoldable pub http_sd_configs : String → String → Value
http_sd_configs service job =
    let url =
      "http://"
      <+> service
      <+> ":80/jobs/"
      <+> query_escape job
      <+> "/targets?collector_id=$POD_NAME" in
    seq (item (obj (field "url" (str url) end)) nil)

unfoldable pub discover : String → ℕ → Fields → Checked Value
discover service i m = elim (find m "job_name") [
  | none ↦ invalid (not_a_string_at "job_name" i)
  | some (str job) ↦ valid (obj (set m "http_sd_configs" (http_sd_configs service job)))
  | some v ↦ invalid (not_a_string_at "job_name is not a string" i)
]

unfoldable pub rewrite_scrape_config : String → ℕ → Value → Checked Value
rewrite_scrape_config service i v = elim (as_map (some v)) [
  | none ↦ invalid (not_a_map_at "scrape_config" i)
  | some m ↦ discover service i (without_discovery m)
]

unfoldable pub add_http_sd_config_to_prom_config : Fields → String → Checked Fields
add_http_sd_config_to_prom_config prometheus service =
    edit_scrape_configs (rewrite_scrape_config service) prometheus

-- The target allocator's section; one that is null counts as missing.
unfoldable pub target_allocator_section : Fields → Checked Fields
target_allocator_section prometheus = elim (find prometheus "target_allocator") [
  | none ↦ valid end
  | some null ↦ valid end
  | some (obj m) ↦ valid m
  | some v ↦ invalid (not_a_map "target_allocator")
]

unfoldable pub with_endpoint : Fields → String → Fields
with_endpoint m service =
    let m1 = set m "endpoint" (str ("http://" <+> service <+> ":80")) in
    set (set m1 "interval" (str "30s")) "collector_id" (str "${POD_NAME}")

abbrev pub with_sections : Fields → Fields → Fields → String → Fields
with_sections prometheus config section service =
    set (set prometheus "target_allocator" (obj (with_endpoint section service))) "config"
      (obj (remove config "scrape_configs"))

unfoldable pub add_ta_config_to_prom_config : Fields → String → Checked Fields
add_ta_config_to_prom_config prometheus service = do
  config ← component_at prometheus "config" "prometheusConfig"
  section ← target_allocator_section prometheus
  valid (with_sections prometheus config section service)
