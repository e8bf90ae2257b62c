-- ===== src/Prometheus/Examples.antt =====
-- A collector that scrapes one job, found by DNS, with two relabel configurations.
use opentelemetry_operator.Prelude.{true, some, ◌≡◌, refl, has_suffix, contains}
use opentelemetry_operator.Yaml.{
  str, seq, obj, Items, nil, item, Fields, end, field, find, set, remove,
}
use opentelemetry_operator.Prometheus.Config.{
  valid, each_item, edit_scrape_configs, component_at, scrape_configs, with_configs,
}
use opentelemetry_operator.Prometheus.Unescape.{unescape_replacement}
use opentelemetry_operator.Prometheus.Unescape.Laws.{
  double_items, are_relabel_configs, each_item-double_items,
}
use opentelemetry_operator.Prometheus.Rewrite.{
  is_discovery, without_discovery, http_sd_configs, discover, rewrite_scrape_config,
  add_http_sd_config_to_prom_config, target_allocator_section, with_endpoint,
  add_ta_config_to_prom_config,
}
use opentelemetry_operator.Prometheus.Rewrite.Escape.{
  utf8, char_at, percent, is_unreserved, query_escape,
}
use opentelemetry_operator.Prometheus.Rewrite.Laws.{
  Rewritten, add_http_sd_config_to_prom_config-Rewritten,
}

abbrev relabels : Items
relabels =
    item (obj (field "action" (str "drop") end))
      (item (obj (field "replacement" (str "$1 for $name") end)) nil)

checked : are_relabel_configs relabels ≡ true
unfolding are_relabel_configs find
checked = refl

each_item-double_items_example :
    each_item (unescape_replacement "relabel_config") 0 (double_items relabels) ≡ valid relabels
each_item-double_items_example = each_item-double_items "relabel_config" 0 relabels checked

abbrev scrape : Fields → Fields
scrape discovery = field "job_name" (str "web/1 é") (field "scheme" (str "http") discovery)

abbrev pub dns : Fields
dns = field "dns_sd_configs" (seq nil) end

abbrev pub receiver : Fields → Fields
receiver discovery =
    field "config" (obj (field "scrape_configs" (seq (item (obj (scrape discovery)) nil)) end))
      (field "trim" (str "yes") end)

abbrev pub http : Fields
http = field "http_sd_configs" (http_sd_configs "web-targetallocator" "web/1 é") end

escapes : query_escape "web/1 é" ≡ "web%2F1+%C3%A9"
unfolding utf8 char_at percent is_unreserved query_escape
escapes = refl

rewrites :
    add_http_sd_config_to_prom_config (receiver dns) "web-targetallocator" ≡ valid (receiver http)
unfolding add_http_sd_config_to_prom_config edit_scrape_configs component_at scrape_configs
    each_item rewrite_scrape_config discover without_discovery is_discovery find set has_suffix
    contains
rewrites = refl

add_http_sd_config_to_prom_config-Rewritten_example :
    (config : Fields) × (xs : Items) × (ys : Items) × (find (receiver dns) "config"
      ≡ some (obj config))
    × (find config "scrape_configs" ≡ some (seq xs))
    × Rewritten "web-targetallocator" xs ys
    × (receiver http ≡ with_configs (receiver dns) config ys)
add_http_sd_config_to_prom_config-Rewritten_example =
    add_http_sd_config_to_prom_config-Rewritten "web-targetallocator" (receiver dns) (receiver http)
      rewrites

abbrev allocated : Fields
allocated = field "config" (obj end) (
    field "trim" (str "yes") (
      field "target_allocator"
        (obj (
          field "endpoint" (str "http://web-targetallocator:80")
            (field "interval" (str "30s") (field "collector_id" (str "${POD_NAME}") end))))
        end))

allocates : add_ta_config_to_prom_config (receiver dns) "web-targetallocator" ≡ valid allocated
unfolding add_ta_config_to_prom_config component_at target_allocator_section with_endpoint find set
    remove
allocates = refl
