-- ===== src/Reconcile/ConfigMaps.antt =====
-- pkg/collector/reconcile/configmap.go: the config maps of the collectors and of the target allocator.
pub mod Refused
pub mod Selector
use opentelemetry_operator.Prelude.{
  ℕ, String, Bool, List, [], ◌∷◌, Option, none, some, split, ◌<+>◌, ◌==◌, if◌then◌else◌,
}
use opentelemetry_operator.GoMap.{Map, Range, put}
use opentelemetry_operator.Yaml.{Value, str, obj, Fields, end, field, find, set}
use opentelemetry_operator.Upgrade.Types.{Yaml}
use opentelemetry_operator.Naming.Truncate.{Bytes}
use opentelemetry_operator.Naming.Names.{config_map_name, ta_config_map_name, ta_service_name}
use opentelemetry_operator.Collector.Labels.{
  LabelledCollector, version_of, collector_labels, target_allocator_labels,
}
use opentelemetry_operator.Prometheus.Config.{Checked, valid, invalid, ◌>>=◌}
use opentelemetry_operator.Prometheus.Unescape.{unescape_dollar_signs_in_prom_config}
use opentelemetry_operator.Prometheus.Replace.{Replacement, printed, replace_config}
use opentelemetry_operator.Reconcile.Api.{Object, Error, Answer, ok, err}
use opentelemetry_operator.Reconcile.Tasks.{Built}
use opentelemetry_operator.Reconcile.Kinds.{ConfigData}

-- The fields that the code reads of an OpenTelemetryCollector; a selector may be nil.
pub record ConfiguredCollector : Type 0 where
  pub labelled : LabelledCollector
  pub annotations : Map String
  pub config : String
  pub target_allocator_enabled : Bool
  pub allocation_strategy : String
  pub filter_strategy : String
  pub service_monitor_selector : Option (Map String)
  pub pod_monitor_selector : Option (Map String)

-- What the code takes from elsewhere: yaml.v2, the feature gate, regexp.MatchString, unicode.ToLower,
-- the bytes of a text, and the order of a map.
pub record Surroundings : Type 1 where
  pub yaml : Yaml
  pub rewrite_enabled : Bool
  pub matches : String → String → Bool
  pub to_lower : ℕ → ℕ
  pub text : Bytes → String
  pub order : Range

-- A map[string]string as yaml.v2 prints it.
unfoldable pub texts_of : Map String → Fields
texts_of [] = end
texts_of ((k, v) ∷ m) = field k (str v) (texts_of m)

-- taConfig[key] = v, unless there is no value.
unfoldable pub set_some : Fields → String → Option Value → Fields
set_some m k none = m
set_some m k (some v) = set m k v

abbrev selector_value : Option (Map String) → Option Value
selector_value none = none
selector_value (some m) = some (obj (texts_of m))

-- What is in place of a text that may be empty.
abbrev unless_empty : String → Option Value
unless_empty s = if s == "" then none else some (str s)

abbrev or_strategy : String → String → String
or_strategy s t = if s == "" then t else s

-- Where ReplaceConfig fails, the error is logged and its text, which is empty, is used.
abbrev pub text_or_empty : Checked String → String
text_or_empty (valid s) = s
text_or_empty (invalid p) = ""

module _ (e : Surroundings) (c : ConfiguredCollector) where
  abbrev pub replacement_of : Replacement
  replacement_of = record {
    config = c.config;
    target_allocator_enabled = c.target_allocator_enabled;
    rewrite_enabled = e.rewrite_enabled;
    service = ta_service_name e.text e.to_lower c.labelled.name;
  }

  abbrev pub config_object : String → Map String → Map String → Object ConfigData
  config_object name labels data_map = record {
    namespace = c.labelled.namespace;
    name = name;
    labels = labels;
    annotations = c.annotations;
    owners = [];
    spec = record { data_map = data_map; binary_data = [] };
  }

  unfoldable pub desired_config_map : Object ConfigData
  desired_config_map =
      let name = config_map_name e.text e.to_lower c.labelled.name in
      config_object name (collector_labels e.text e.matches e.order c.labelled name [])
        (("collector.yaml", text_or_empty (replace_config e.yaml replacement_of)) ∷ [])

  unfoldable pub label_selector : Map String
  label_selector =
      ("app.kubernetes.io/instance", c.labelled.namespace <+> "." <+> c.labelled.name)
      ∷ ("app.kubernetes.io/managed-by", "opentelemetry-operator")
      ∷ ("app.kubernetes.io/component", "opentelemetry-collector")
      ∷ []

  -- The target allocator's configuration, from the receiver whose dollar signs are unescaped.
  unfoldable pub ta_config : Fields → Fields
  ta_config prometheus =
      let selected = field "label_selector" (obj (texts_of label_selector)) end in
      let configured = set_some selected "config" (find prometheus "config") in
      let strategy = or_strategy c.allocation_strategy "least-weighted" in
      let allocated = set configured "allocation_strategy" (str strategy) in
      let filtered = set_some allocated "filter_strategy" (unless_empty c.filter_strategy) in
      let services =
        set_some filtered "service_monitor_selector" (selector_value c.service_monitor_selector) in
      set_some services "pod_monitor_selector" (selector_value c.pod_monitor_selector)

  unfoldable pub ta_labels : String → Map String
  ta_labels name =
      put (target_allocator_labels e.text e.matches e.order c.labelled name)
        "app.kubernetes.io/version" (version_of (split c.labelled.image 58))

  unfoldable pub desired_ta_config_map : Checked (Object ConfigData)
  desired_ta_config_map = do
    prometheus ← unescape_dollar_signs_in_prom_config e.yaml c.config
    text ← printed e.yaml (ta_config prometheus)
    let name = ta_config_map_name e.text e.to_lower c.labelled.name in
        valid (config_object name (ta_labels name) (("targetallocator.yaml", text) ∷ []))

  -- The text of the error is that of the wrapping in ConfigMaps, without the error that it wraps.
  abbrev pub answer_of : {A : Type 0} → Checked A → Answer A
  answer_of (valid a) = ok a
  answer_of (invalid p) = err (Error.other "failed to parse config")

  abbrev pub with_config_maps : {R P : Type 0} → Built R P → Built R P
  with_config_maps b = record b {
    config_map = desired_config_map;
    target_allocator_config_map = answer_of desired_ta_config_map;
  }
