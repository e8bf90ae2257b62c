-- ===== src/Prometheus/AdmissionExamples.antt =====
-- A collector with a target allocator, whose configuration the webhook accepts. A text stands for each of
-- its three configurations: with DNS, with the target allocator's discovery, and without `config`.
use opentelemetry_operator.Prelude.{
  String, true, false, ◌==◌, ◌≡◌, ◌∙◌, refl, sym, subst, is_some, some, none, Option, if◌then◌else◌,
  has_suffix, contains,
}
use opentelemetry_operator.Yaml.{str, obj, Fields, end, field, find, set}
use opentelemetry_operator.Yaml.Same.{Same, SameAt, is_some-Same, Same-swap}
use opentelemetry_operator.Upgrade.Types.{Yaml}
use opentelemetry_operator.Upgrade.Middle.{map_at}
use opentelemetry_operator.Webhook.Types.{Spec}
use opentelemetry_operator.Webhook.Validate.{
  accept, Checks, max_replicas, min_replicas, unless_zero, check_mode, check_prometheus,
  check_ports, check_replicas, check_rest, check_probe, check_behavior, check_metrics,
  check_autoscaler_spec, validate_crd_spec,
}
use opentelemetry_operator.Webhook.Examples.{spec}
use opentelemetry_operator.Prometheus.Config.{
  valid, valid_eq, each_item, edit_scrape_configs, component_at, scrape_configs, config_from_string,
  config_to_prom_config, validate_prom_config,
}
use opentelemetry_operator.Prometheus.Rewrite.{
  is_discovery, without_discovery, discover, http_sd_configs, rewrite_scrape_config,
  add_http_sd_config_to_prom_config,
}
use opentelemetry_operator.Prometheus.Rewrite.Escape.{
  utf8, char_at, percent, is_unreserved, query_escape,
}
use opentelemetry_operator.Prometheus.Replace.{replace_config, rewritten, updated_config}
use opentelemetry_operator.Prometheus.Replace.Stable.{ReadsBack, replace_config_idem}
use opentelemetry_operator.Prometheus.Admission.{replacement, replace_config-accept}
use opentelemetry_operator.Prometheus.Examples.{receiver, dns, http}

abbrev receivers : Fields → Fields
receivers prometheus = field "prometheus" (obj prometheus) (field "otlp" (str "default") end)

abbrev configuration : Fields → Fields
configuration prometheus =
    field "receivers" (obj (receivers prometheus)) (field "exporters" (obj end) end)

-- The printed text has the sections in the order of their names.
abbrev printed_configuration : Fields → Fields
printed_configuration prometheus =
    field "exporters" (obj end) (field "receivers" (obj (receivers prometheus)) end)

abbrev pub allocator_only : Fields
allocator_only = field "target_allocator" (obj (field "interval" (str "30s") end)) end

abbrev read : String → Option Fields
read text =
    if text == "dns"
    then some (configuration (receiver dns))
    else if text == "http"
    then some (printed_configuration (receiver http))
    else if text == "allocator"
    then some (configuration allocator_only)
    else none

abbrev print : Fields → Option String
print m = if is_some (find m "exporters") then some "http" else none

abbrev pub texts : Yaml
texts = record { parse = read; marshal = print; format_d = λ v. ""; format_s = λ v. "" }

print-Same : (m n : Fields) → Same m n → print m ≡ print n
print-Same m n s = rw (is_some-Same (s "exporters")) refl

abbrev checks : Checks
checks = record {
  yaml = texts;
  rewrite_enabled = false;
  bad_port_name = λ name. false;
  bad_port_number = λ port. false;
}

abbrev collector : String → Spec
collector config = record spec {
  mode = "statefulset";
  config = config;
  target_allocator = record spec.target_allocator { enabled = true };
}

dns_accepted : validate_crd_spec checks (collector "dns") ≡ accept
unfolding validate_crd_spec max_replicas min_replicas unless_zero check_mode check_prometheus
    check_ports check_replicas check_rest check_probe check_behavior check_metrics
    check_autoscaler_spec config_to_prom_config config_from_string component_at validate_prom_config
    find
dns_accepted = refl

allocator_accepted : validate_crd_spec checks (collector "allocator") ≡ accept
unfolding validate_crd_spec max_replicas min_replicas unless_zero check_mode check_prometheus
    check_ports check_replicas check_rest check_probe check_behavior check_metrics
    check_autoscaler_spec config_to_prom_config config_from_string component_at validate_prom_config
    find
allocator_accepted = refl

pub only_allocator : config_to_prom_config texts "allocator" ≡ valid allocator_only
unfolding config_to_prom_config config_from_string component_at find
only_allocator = refl

pub no_config : find allocator_only "config" ≡ none
unfolding find
no_config = refl

replaces :
    replace_config texts (replacement checks (collector "dns") "web-targetallocator") ≡ valid "http"
unfolding replace_config config_to_prom_config config_from_string component_at validate_prom_config
    find set add_http_sd_config_to_prom_config edit_scrape_configs scrape_configs each_item
    rewrite_scrape_config discover without_discovery is_discovery has_suffix contains
    http_sd_configs query_escape is_unreserved percent utf8 char_at
replaces = refl

updates :
    updated_config texts (replacement checks (collector "dns") "web-targetallocator")
    ≡ valid (configuration (receiver http))
unfolding config_to_prom_config config_from_string component_at validate_prom_config find set
    add_http_sd_config_to_prom_config edit_scrape_configs scrape_configs each_item
    rewrite_scrape_config discover without_discovery is_discovery has_suffix contains
    http_sd_configs query_escape is_unreserved percent utf8 char_at
updates = refl

reads_back : ReadsBack texts (replacement checks (collector "dns") "web-targetallocator") "http"
reads_back m e =
    let is : configuration (receiver http) ≡ m = valid_eq _ _ (sym updates ∙ e) in
    (
      printed_configuration (receiver http),
      refl,
      subst (λ x. Same x (printed_configuration (receiver http))) is
          (Same-swap "receivers" "exporters" (obj (receivers (receiver http))) (obj end) end refl),
    )

replace_config_idem_example :
    replace_config texts
      (record (replacement checks (collector "dns") "web-targetallocator") { config = "http" })
    ≡ valid "http"
replace_config_idem_example =
    replace_config_idem texts (replacement checks (collector "dns") "web-targetallocator") "http"
      reads_back print-Same replaces

replace_config-accept_example :
    (validate_crd_spec checks (record (collector "dns") { config = "http" }) ≡ accept)
    × ((config : Fields) × (new : Fields) × (prometheus : Fields) × (updated : Fields)
        × (again : Fields) × (read "dns" ≡ some config)
        × (read "http" ≡ some new)
        × (config_to_prom_config texts "dns" ≡ valid prometheus)
        × (config_to_prom_config texts "http" ≡ valid again)
        × (rewritten (replacement checks (collector "dns") "web-targetallocator") prometheus
            ≡ valid updated)
        × Same updated again
        × SameAt (find config "exporters") (find new "exporters")
        × SameAt (find (map_at config "receivers") "otlp") (find (map_at new "receivers") "otlp"))
replace_config-accept_example =
    replace_config-accept checks (collector "dns") refl dns_accepted "web-targetallocator" "http"
      "exporters" "otlp" reads_back refl refl replaces
