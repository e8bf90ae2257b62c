-- ===== src/Collector/Annotations/Laws.antt =====
-- What the annotations of a collector and of its pods hold.
use opentelemetry_operator.Prelude.{
  String, List, elem, for_each, ◌≡◌, refl, none, some, [], ◌∷◌, arith, ◌==◌, eq_iff, if◌then◌else◌,
}
use opentelemetry_operator.GoMap.{Map, Range, get, copy_into}
use opentelemetry_operator.GoMap.Laws.{get-put, get-copy_into, or_old}
use opentelemetry_operator.Collector.Annotations.{
  AnnotatedCollector, sha256_key, defaults, put_missing, annotations, pod_annotations,
}

get-put_missing :
    (m n : Map String) (k j : String)
    → get (put_missing m n k) j ≡ (if k == j then or_old (get n j) (get m j) else get n j)
unfolding put_missing
get-put_missing m n k j = grind (arith, eq_iff k j, get-put)

get-put_missing_each :
    (m : Map String) (ks : List String) (n : Map String) (j : String)
    → get (for_each (put_missing m) n ks) j
      ≡ (if elem j ks then or_old (get n j) (get m j) else get n j)
get-put_missing_each m [] n j = refl
get-put_missing_each m (k ∷ ks) n j =
    ground (arith, get-put_missing_each m ks (put_missing m n k) j, get-put_missing m n k j)

-- Adding what is missing.
get-missing :
    (r : Range) (m n : Map String) (j : String)
    → get (for_each (put_missing m) n (r.visit String m)) j ≡ or_old (get n j) (get m j)
get-missing r m n j =
    let each = get-put_missing_each m (r.visit String m) n j in
    rw each (ground (arith, r.elem-visit String m j))

module _ (sha256 : String → String) (r : Range) (otelcol : AnnotatedCollector) where
  -- The annotations of a collector hold the sum of its configuration at the operator's key, at every
  -- other key what the user wrote there, and the defaults for scraping where the user wrote nothing.
  pub get-annotations :
      (j : String)
      → get (annotations sha256 r otelcol) j ≡ (
          if sha256_key == j
          then some (sha256 otelcol.config)
          else or_old (get otelcol.annotations j) (get defaults j))
  unfolding annotations
  get-annotations j = grind (arith, get-put, get-copy_into)

  -- The annotations of a pod hold the sum of the configuration at the operator's key, at every other key
  -- what the user wrote for the pod, then what the user wrote for the collector, then the default.
  pub get-pod_annotations :
      (j : String)
      → get (pod_annotations sha256 r otelcol) j ≡ (
          if sha256_key == j
          then some (sha256 otelcol.config)
          else or_old
              (get otelcol.pod_annotations j)
              (or_old (get otelcol.annotations j) (get defaults j)))
  unfolding pod_annotations
  get-pod_annotations j =
      let meta = annotations sha256 r otelcol in
      let own = copy_into r otelcol.pod_annotations [] in
      let all = for_each (put_missing meta) own (r.visit String meta) in
      let empty : get {V = String} [] j ≡ none = unfold get in refl in
      rw
        (
          get-put all sha256_key (sha256 otelcol.config) j,
          get-missing r meta own j,
          get-annotations j,
          get-copy_into r otelcol.pod_annotations [] j,
          empty,
        )
        (ground arith)
