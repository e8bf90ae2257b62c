-- ===== src/Collector/Labels.antt =====
-- pkg/collector/labels.go and pkg/targetallocator/labels.go: the labels of a collector's objects.
pub mod Laws
use opentelemetry_operator.Prelude.{
  String, Bool, true, false, List, [], ◌∷◌, Option, none, some, for_each, split, if◌then◌else◌,
}
use opentelemetry_operator.GoMap.{Map, Range, get, put, has, copy, copy_into}
use opentelemetry_operator.Naming.Truncate.{Bytes, truncate}
use opentelemetry_operator.Naming.Texts.{bytes, joined_by_dot}

-- The fields that the code reads of an OpenTelemetryCollector.
pub record LabelledCollector : Type 0 where
  pub namespace : String
  pub name : String
  pub labels : Map String
  pub image : String

-- The loop returns in its first round.
unfoldable pub is_filtered_label : (String → String → Bool) → String → List String → Bool
is_filtered_label matches label [] = false
is_filtered_label matches label (pattern_ ∷ patterns) = matches pattern_ label

unfoldable pub keep_label :
    (String → String → Bool) → List String → Map String → Map String → String → Map String
keep_label matches filters m n k = elim (get m k) [
  | none ↦ n
  | some v ↦ if is_filtered_label matches k filters then n else put n k v
]

last_of : String → List String → String
last_of x [] = x
last_of x (y ∷ ys) = last_of y ys

-- The tag of an image: what follows the last colon of strings.Split.
unfoldable pub version_of : List String → String
unfolding last_of
version_of (x ∷ y ∷ ys) = last_of y ys
version_of _ = "latest"

-- m[k] = v if the key is not there.
unfoldable pub put_absent : Map String → String → String → Map String
put_absent m k v = if has m k then m else put m k v

-- `text` reads bytes as a text, and `matches` is regexp.MatchString.
module _ (text : Bytes → String) (matches : String → String → Bool) (r : Range) where
  unfoldable pub instance_label : LabelledCollector → String
  instance_label c = text (truncate joined_by_dot 63 (bytes c.namespace ∷ bytes c.name ∷ []))

  unfoldable pub selector_labels : LabelledCollector → Map String
  selector_labels c =
      ("app.kubernetes.io/managed-by", "opentelemetry-operator")
      ∷ ("app.kubernetes.io/instance", instance_label c)
      ∷ ("app.kubernetes.io/part-of", "opentelemetry")
      ∷ ("app.kubernetes.io/component", "opentelemetry-collector")
      ∷ []

  unfoldable pub collector_labels : LabelledCollector → String → List String → Map String
  collector_labels c name filters =
      let base = for_each (keep_label matches filters c.labels) [] (r.visit String c.labels) in
      let selected = copy_into r (selector_labels c) base in
      let versioned = put selected "app.kubernetes.io/version" (version_of (split c.image 58)) in
      put_absent versioned "app.kubernetes.io/name" name

  unfoldable pub target_allocator_labels : LabelledCollector → String → Map String
  target_allocator_labels c name =
      let base = copy r c.labels in
      let managed = put base "app.kubernetes.io/managed-by" "opentelemetry-operator" in
      let instance_ = put managed "app.kubernetes.io/instance" (instance_label c) in
      let part = put instance_ "app.kubernetes.io/part-of" "opentelemetry" in
      let component = put part "app.kubernetes.io/component" "opentelemetry-targetallocator" in
      put_absent component "app.kubernetes.io/name" name
