-- ===== src/Reconcile/ConfigMapExamples.antt =====
-- The config maps' task on a collector whose receiver has only a section `target_allocator`.
use opentelemetry_operator.Prelude.{true, false, [], none, some, ◌≡◌, refl, ◌==◌}
use opentelemetry_operator.GoMap.{in_order}
use opentelemetry_operator.Prometheus.AdmissionExamples.{
  texts, allocator_only, only_allocator, no_config,
}
use opentelemetry_operator.Reconcile.Api.{Error, ok, selected}
use opentelemetry_operator.Reconcile.Task.{Owner}
use opentelemetry_operator.Reconcile.Kinds.{ConfigData}
use opentelemetry_operator.Reconcile.Tasks.{Params, config_maps}
use opentelemetry_operator.Reconcile.ConfigMaps.{
  ConfiguredCollector, Surroundings, with_config_maps, label_selector,
}
use opentelemetry_operator.Reconcile.ConfigMaps.Refused.{config_maps_refused}
use opentelemetry_operator.Reconcile.ConfigMaps.Selector.{pod_labels, selected-label_selector}
use opentelemetry_operator.Reconcile.Owned.{full_name}
use opentelemetry_operator.Collector.Labels.{instance_label}
use opentelemetry_operator.Reconcile.Memory.Store.{Store, memory}
use opentelemetry_operator.Reconcile.Examples.{keep_owners}
use opentelemetry_operator.Reconcile.TaskExamples.{params, built}
use opentelemetry_operator.Reconcile.OwnedExamples.{decode, no_match, named}

abbrev surroundings : Surroundings
surroundings = record {
  yaml = texts;
  rewrite_enabled = false;
  matches = no_match;
  to_lower = λ x. x;
  text = decode;
  order = in_order;
}

abbrev web : ConfiguredCollector
web = record {
  labelled = named "web";
  annotations = [];
  config = "allocator";
  target_allocator_enabled = true;
  allocation_strategy = "";
  filter_strategy = "";
  service_monitor_selector = none;
  pod_monitor_selector = none;
}

abbrev with_allocator : Params
with_allocator = record params { target_allocator_enabled = true }

abbrev owner : Owner ConfigData
owner = record { set = λ o. ok o; set-keeps = keep_owners }

abbrev no_objects : Store ConfigData
no_objects = record { objects = []; faults = []; distinct = tt }

config_maps_refused_example :
    config_maps with_allocator
      (with_config_maps surroundings web built)
      in_order
      memory
      owner
      no_objects
    ≡ (some (Error.other "failed to parse config"), no_objects)
config_maps_refused_example =
    config_maps_refused surroundings web allocator_only only_allocator no_config with_allocator
      built in_order memory owner no_objects refl

selected-label_selector_example :
    selected (label_selector surroundings web) (pod_labels surroundings web "web-collector" []) ≡ (
      instance_label decode no_match in_order (named "web")
      == full_name decode no_match in_order (named "web"))
selected-label_selector_example = selected-label_selector surroundings web "web-collector" []
