-- ===== src/Collector/Labels/Laws.antt =====
-- The labels by which the objects of a collector are listed.
use opentelemetry_operator.Prelude.{
  String, Bool, false, List, [], some, ◌≡◌, refl, ◌==◌, ◌∙◌, Bool-cases, inl, inr, ap, for_each,
  split, if◌then◌else◌,
}
use opentelemetry_operator.GoMap.{Map, Range, get, put, has, copy, copy_into}
use opentelemetry_operator.GoMap.Laws.{get-put, get-copy_into}
use opentelemetry_operator.Naming.Truncate.{Bytes}
use opentelemetry_operator.Collector.Labels.{
  LabelledCollector, put_absent, keep_label, version_of, instance_label, selector_labels,
  collector_labels, target_allocator_labels,
}

get-put_absent :
    (m : Map String) (k v j : String) → (k == j) ≡ false → get (put_absent m k v) j ≡ get m j
unfolding put_absent
get-put_absent m k v j e = elim (Bool-cases (has m k)) [
  | inl f ↦ rw f refl
  | inr f ↦ rw f (rw (get-put m k v j, e) refl)
]

module _ (text : Bytes → String) (matches : String → String → Bool) (r : Range)
    (c : LabelledCollector) (name : String) where
  pub get-collector_labels :
      (filters : List String)
      → (get (collector_labels text matches r c name filters) "app.kubernetes.io/instance"
          ≡ some (instance_label text matches r c))
        × (get (collector_labels text matches r c name filters) "app.kubernetes.io/managed-by"
            ≡ some "opentelemetry-operator")
        × (get (collector_labels text matches r c name filters) "app.kubernetes.io/component"
            ≡ some "opentelemetry-collector")
  unfolding collector_labels selector_labels get
  get-collector_labels filters =
      let base = for_each (keep_label matches filters c.labels) [] (r.visit String c.labels) in
      let selectors = selector_labels text matches r c in
      let all = copy_into r selectors base in
      let version = version_of (split c.image 58) in
      let versioned = put all "app.kubernetes.io/version" version in
      let kept = get-put_absent versioned "app.kubernetes.io/name" name in
      (
        kept "app.kubernetes.io/instance" refl
            ∙ get-put all "app.kubernetes.io/version" version "app.kubernetes.io/instance"
            ∙ get-copy_into r selectors base "app.kubernetes.io/instance",
        kept "app.kubernetes.io/managed-by" refl
            ∙ get-put all "app.kubernetes.io/version" version "app.kubernetes.io/managed-by"
            ∙ get-copy_into r selectors base "app.kubernetes.io/managed-by",
        kept "app.kubernetes.io/component" refl
            ∙ get-put all "app.kubernetes.io/version" version "app.kubernetes.io/component"
            ∙ get-copy_into r selectors base "app.kubernetes.io/component",
      )

  pub get-target_allocator_labels :
      (get (target_allocator_labels text matches r c name) "app.kubernetes.io/instance"
        ≡ some (instance_label text matches r c))
      × (get (target_allocator_labels text matches r c name) "app.kubernetes.io/managed-by"
          ≡ some "opentelemetry-operator")
  unfolding target_allocator_labels
  get-target_allocator_labels =
      let managed = put (copy r c.labels) "app.kubernetes.io/managed-by" "opentelemetry-operator" in
      let instance_ = put managed "app.kubernetes.io/instance" (instance_label text matches r c) in
      let part = put instance_ "app.kubernetes.io/part-of" "opentelemetry" in
      let component : String = "opentelemetry-targetallocator" in
      let all = put part "app.kubernetes.io/component" component in
      let kept = get-put_absent all "app.kubernetes.io/name" name in
      let above = λ (j : String).
        get-put part "app.kubernetes.io/component" component j
        ∙ ap (λ o. if "app.kubernetes.io/component" == j then some component else o)
            (get-put instance_ "app.kubernetes.io/part-of" "opentelemetry" j) in
      (
        kept "app.kubernetes.io/instance" refl
            ∙ above "app.kubernetes.io/instance"
            ∙ get-put managed "app.kubernetes.io/instance" _ "app.kubernetes.io/instance",
        kept "app.kubernetes.io/managed-by" refl
            ∙ above "app.kubernetes.io/managed-by"
            ∙ get-put managed "app.kubernetes.io/instance" _ "app.kubernetes.io/managed-by"
            ∙ get-put (copy r c.labels) "app.kubernetes.io/managed-by" _
                "app.kubernetes.io/managed-by",
      )
