-- ===== src/Collector/Annotations.antt =====
-- pkg/collector/annotations.go: the annotations of a collector and of its pods.
pub mod Laws
use opentelemetry_operator.Prelude.{String, List, [], Option, none, some, for_each}
use opentelemetry_operator.GoMap.{Map, Range, get, put, copy_into}

-- The fields that the code reads of an OpenTelemetryCollector.
pub record AnnotatedCollector : Type 0 where
  pub annotations : Map String
  pub pod_annotations : Map String
  pub config : String

abbrev pub sha256_key : String
sha256_key = "opentelemetry-operator-config/sha256"

unfoldable pub defaults : Map String
defaults =
    let scrape = put [] "prometheus.io/scrape" "true" in
    put (put scrape "prometheus.io/port" "8888") "prometheus.io/path" "/metrics"

-- One key of the second loop of PodAnnotations.
unfoldable pub put_missing : Map String → Map String → String → Map String
put_missing m n k = elim (get n k) [
  | some v ↦ n
  | none ↦ elim (get m k) [ none ↦ n | some v ↦ put n k v ]
]

-- `sha256` is the hexadecimal text of sha256.Sum256.
module _ (sha256 : String → String) (r : Range) where
  unfoldable pub annotations : AnnotatedCollector → Map String
  annotations otelcol =
      put (copy_into r otelcol.annotations defaults) sha256_key (sha256 otelcol.config)

  unfoldable pub pod_annotations : AnnotatedCollector → Map String
  pod_annotations otelcol =
      let own = copy_into r otelcol.pod_annotations [] in
      let meta = annotations otelcol in
      let all = for_each (put_missing meta) own (r.visit String meta) in
      put all sha256_key (sha256 otelcol.config)
