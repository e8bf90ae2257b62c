-- ===== src/Collector/Examples.antt =====
-- A collector with annotations of its own, and what it and its pods are annotated with.
use opentelemetry_operator.Prelude.{String, [], ◌∷◌, ◌≡◌, refl, some}
use opentelemetry_operator.GoMap.{get, put, in_order, copy_into, keys}
use opentelemetry_operator.Collector.Annotations.{
  AnnotatedCollector, annotations, pod_annotations, defaults, put_missing,
}
use opentelemetry_operator.Collector.Annotations.Laws.{get-pod_annotations}

abbrev otelcol : AnnotatedCollector
otelcol = record {
  annotations =
      ("prometheus.io/scrape", "false")
      ∷ ("opentelemetry-operator-config/sha256", "overwritten")
      ∷ [];
  pod_annotations = ("prometheus.io/port", "1234") ∷ [];
  config = "receivers:";
}

abbrev sum : String → String
sum config = "9f86"

runs :
    pod_annotations sum in_order otelcol
    ≡ ("prometheus.io/port", "1234")
      ∷ ("prometheus.io/scrape", "false")
      ∷ ("prometheus.io/path", "/metrics")
      ∷ ("opentelemetry-operator-config/sha256", "9f86")
      ∷ []
unfolding pod_annotations annotations defaults put_missing get put copy_into keys
runs = refl

get-pod_annotations_example :
    get (pod_annotations sum in_order otelcol) "prometheus.io/path" ≡ some "/metrics"
unfolding get put defaults
get-pod_annotations_example = get-pod_annotations sum in_order otelcol "prometheus.io/path"
