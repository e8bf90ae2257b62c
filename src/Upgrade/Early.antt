-- ===== src/Upgrade/Early.antt =====
-- pkg/collector/upgrade: v0_2_10.go to v0_31_0.go.
pub mod Laws
use opentelemetry_operator.Prelude.{
  String, Bool, true, false, Option, none, some, List, [], ◌∷◌, ◌++◌, ◌==◌, ◌||◌, ◌<+>◌, has_prefix,
  if◌then◌else◌,
}
use opentelemetry_operator.GoMap.{Map, delete}
use opentelemetry_operator.Yaml.{
  Value, null, bool, num, str, seq, string_maps, obj, Fields, end, field, find, set, remove, as_map,
  Round, keep, drop, leave, fail, panic, Edited, edited, left, failed, panicked, each, then_edit,
  as_round,
}
use opentelemetry_operator.Upgrade.Types.{Otelcol, Outcome, ok, Yaml, edit_config}

unfoldable pub upgrade0_2_10 : Otelcol → Outcome
upgrade0_2_10 o = ok o

-- An exporter of v0.9.0.
unfoldable pub drop_reconnection_delay : Value → Round
drop_reconnection_delay (obj m) = keep (obj (remove m "reconnection_delay"))
drop_reconnection_delay (str s) = keep (str s)
drop_reconnection_delay _ = fail "couldn't upgrade to v0.9.0, the exporter is invalid"

-- The code asks strings.HasPrefix("opencensus", k).
unfoldable pub exporter_0_9_0 : String → Value → Round
exporter_0_9_0 k v = if has_prefix "opencensus" k then drop_reconnection_delay v else keep v

unfoldable pub fields_0_9_0 : Fields → Edited
fields_0_9_0 cfg = elim (as_map (find cfg "exporters")) [
  | none ↦ failed "couldn't upgrade to v0.9.0, failed to extract list of exporters"
  | some m ↦ then_edit (each exporter_0_9_0 m) (λ n. edited (set cfg "exporters" (obj n)))
]

unfoldable pub upgrade0_9_0 : Yaml → Otelcol → Outcome
upgrade0_9_0 y = edit_config y fields_0_9_0

unfoldable pub upgrade0_15_0 : Otelcol → Outcome
upgrade0_15_0 o = ok (record o { args = delete (delete o.args "--new-metrics") "--legacy-metrics" })

-- The attributes that a processor has, of the type that the code expects; `none` is another type.
unfoldable pub attributes_of : Fields → Option (List (Map String))
attributes_of m = elim (find m "attributes") [
  | none ↦ some []
  | some (string_maps as_) ↦ some as_
  | some v ↦ none
]

abbrev pub upsert : String → String → Map String
upsert k v = ("key", k) ∷ ("value", v) ∷ ("action", "upsert") ∷ []

abbrev pub bad_attributes : Edited
bad_attributes = failed "couldn't upgrade to v0.19.0, the attributes list couldn't be parsed"

unfoldable pub move_type : Fields → Edited
move_type m = elim (find m "type") [
  | none ↦ edited m
  | some (str t) ↦ elim (attributes_of m) [
    | none ↦ bad_attributes
    | some as_ ↦ edited (
        remove (set m "attributes" (string_maps (as_ ++ (upsert "opencensus.type" t ∷ [])))) "type")
  ]
  | some v ↦ elim (attributes_of m) [ none ↦ bad_attributes | some as_ ↦ panicked ]
]

-- The attributes for the labels; `none` is a label that is no text, which panics.
unfoldable pub label_attributes : Fields → Option (List (Map String))
label_attributes end = some []
label_attributes (field k (str v) m) = elim (label_attributes m) [
  | none ↦ none
  | some rest ↦ some (upsert k v ∷ rest)
]
label_attributes (field k v m) = none

unfoldable pub with_attributes : Fields → List (Map String) → Fields
with_attributes m as_ = remove (set m "attributes" (string_maps as_)) "labels"

unfoldable pub move_labels : Fields → Edited
move_labels m = elim (find m "labels") [
  | none ↦ edited m
  | some v ↦ elim (attributes_of m) [
    | none ↦ bad_attributes
    | some as_ ↦ elim (as_map (some v)) [
      | none ↦ edited (with_attributes m as_)
      | some labels ↦ elim (label_attributes labels) [
        | none ↦ panicked
        | some new ↦ edited (with_attributes m (as_ ++ new))
      ]
    ]
  ]
]

unfoldable pub resource_0_19_0 : Value → Round
resource_0_19_0 (obj m) = as_round (then_edit (move_type m) move_labels)
resource_0_19_0 (str s) = keep (str s)
resource_0_19_0 _ = fail "couldn't upgrade to v0.19.0, the processor is invalid"

unfoldable pub processor_0_19_0 : String → Value → Round
processor_0_19_0 k v =
    if has_prefix k "queued_retry"
    then drop
    else if has_prefix k "resource"
    then resource_0_19_0 v
    else keep v

unfoldable pub fields_0_19_0 : Fields → Edited
fields_0_19_0 cfg = elim (as_map (find cfg "processors")) [
  | none ↦ left
  | some m ↦ then_edit (each processor_0_19_0 m) (λ n. edited (set cfg "processors" (obj n)))
]

unfoldable pub upgrade0_19_0 : Yaml → Otelcol → Outcome
upgrade0_19_0 y = edit_config y fields_0_19_0

module _ (y : Yaml) where
  unfoldable pub move_port : Fields → Fields
  move_port m = elim (find m "port") [
    | none ↦ m
    | some port ↦ set (remove m "port") "endpoint" (str ("0.0.0.0:" <+> y.format_d port))
  ]

  unfoldable pub health_check_0_24_0 : Value → Round
  health_check_0_24_0 (obj m) = keep (obj (move_port m))
  health_check_0_24_0 (str s) = keep (str s)
  health_check_0_24_0 null = keep null
  health_check_0_24_0 _ = fail "couldn't upgrade to v0.24.0, the extension is invalid"

  unfoldable pub extension_0_24_0 : String → Value → Round
  extension_0_24_0 k v = if has_prefix k "health_check" then health_check_0_24_0 v else keep v

  unfoldable pub fields_0_24_0 : Fields → Edited
  fields_0_24_0 cfg = elim (as_map (find cfg "extensions")) [
    | none ↦ left
    | some m ↦ then_edit (each extension_0_24_0 m) (λ n. edited (set cfg "extensions" (obj n)))
  ]

  unfoldable pub upgrade0_24_0 : Otelcol → Outcome
  upgrade0_24_0 = edit_config y fields_0_24_0

unfoldable pub drop_schema : String → Value → Round
drop_schema k v = if has_prefix k "metrics_schema" then drop else keep v

unfoldable pub receiver_0_31_0 : String → Value → Round
receiver_0_31_0 k v =
    if has_prefix k "influxdb"
    then (elim (as_map (some v)) [ none ↦ leave | some m ↦ as_round (each drop_schema m) ])
    else keep v

unfoldable pub fields_0_31_0 : Fields → Edited
fields_0_31_0 cfg = elim (as_map (find cfg "receivers")) [
  | none ↦ left
  | some m ↦ then_edit (each receiver_0_31_0 m) (λ n. edited (set cfg "receivers" (obj n)))
]

unfoldable pub upgrade0_31_0 : Yaml → Otelcol → Outcome
upgrade0_31_0 y = edit_config y fields_0_31_0
