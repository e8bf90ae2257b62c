-- ===== src/Reconcile/ConfigMaps/Selector.antt =====
-- The selector in the target allocator's configuration, by which it finds the pods of the collectors,
-- against the labels of those pods.
use opentelemetry_operator.Prelude.{String, List, ◌≡◌, ◌==◌, arith}
use opentelemetry_operator.GoMap.{Map}
use opentelemetry_operator.Collector.Labels.{instance_label, collector_labels}
use opentelemetry_operator.Collector.Labels.Laws.{get-collector_labels}
use opentelemetry_operator.Reconcile.Api.{selected}
use opentelemetry_operator.Reconcile.Owned.{full_name}
use opentelemetry_operator.Reconcile.ConfigMaps.{ConfiguredCollector, Surroundings, label_selector}

module _ (e : Surroundings) (c : ConfiguredCollector) (name : String) (filters : List String) where
  abbrev pub pod_labels : Map String
  pod_labels = collector_labels e.text e.matches e.order c.labelled name filters

  -- The target allocator's selector holds of the labels of the collector's pods exactly if their
  -- label for the instance is the text namespace.name.
  pub selected-label_selector : selected (label_selector e c) pod_labels ≡ (
      instance_label e.text e.matches e.order c.labelled
      == full_name e.text e.matches e.order c.labelled)
  unfolding label_selector selected
  selected-label_selector =
      let (a, b, d) = get-collector_labels e.text e.matches e.order c.labelled name filters in
      rw (selected, a, selected, b, selected, d) (ground arith)
