-- ===== src/Upgrade/Middle.antt =====
-- pkg/collector/upgrade: v0_36_0.go, v0_38_0.go and v0_43_0.go.
use opentelemetry_operator.Prelude.{
  String, Bool, true, false, none, some, List, [], ◌∷◌, ◌==◌, ◌||◌, has_prefix, if◌then◌else◌, elem,
}
use opentelemetry_operator.GoMap.{Map, get}
use opentelemetry_operator.Yaml.{
  Value, bool, str, obj, Fields, end, field, find, set, remove, as_map, is_end, Round, keep, leave,
  Edited, edited, left, each, then_edit, as_round,
}
use opentelemetry_operator.Upgrade.Types.{Otelcol, Outcome, ok, Yaml, edit, edit_config}

-- An inner map, whose absence makes the function return.
abbrev pub inner : (Fields → Edited) → Value → Round
inner f (obj m) = as_round (f m)
inner f _ = leave

unfoldable pub rename_tls : Fields → Edited
rename_tls m = elim (find m "tls_settings") [
  | none ↦ edited m
  | some v ↦ edited (remove (set m "tls" v) "tls_settings")
]

unfoldable pub protocol_0_36_0 : String → Value → Round
protocol_0_36_0 k v = if (k == "grpc") || (k == "http") then inner rename_tls v else keep v

unfoldable pub protocols_0_36_0 : String → Value → Round
protocols_0_36_0 k v = if k == "protocols" then inner (each protocol_0_36_0) v else keep v

unfoldable pub receiver_0_36_0 : String → Value → Round
receiver_0_36_0 k v = if has_prefix k "otlp" then inner (each protocols_0_36_0) v else keep v

abbrev pub tls_keys : List String
tls_keys =
    "ca_file" ∷ "cert_file" ∷ "key_file" ∷ "min_version" ∷ "max_version" ∷ "insecure"
    ∷ "insecure_skip_verify" ∷ "server_name_override" ∷ []

unfoldable pub tls_of : Fields → Fields
tls_of end = end
tls_of (field k v m) = let rest = tls_of m in if elem k tls_keys then field k v rest else rest

unfoldable pub without_tls : Fields → Fields
without_tls end = end
without_tls (field k v m) =
    let rest = without_tls m in if elem k tls_keys then rest else field k v rest

unfoldable pub move_tls : Fields → Edited
move_tls m = edited (if is_end m then m else set (without_tls m) "tls" (obj (tls_of m)))

unfoldable pub exporter_0_36_0 : String → Value → Round
exporter_0_36_0 k v = if has_prefix k "otlp" then inner move_tls v else keep v

-- A loop over the map at a key of the configuration, whose absence makes the function return.
abbrev pub edit_section : String → (String → Value → Round) → Fields → Edited
edit_section section f cfg = elim (as_map (find cfg section)) [
  | none ↦ left
  | some m ↦ then_edit (each f m) (λ n. edited (set cfg section (obj n)))
]

unfoldable pub fields_0_36_0 : Fields → Edited
fields_0_36_0 cfg =
    then_edit (edit_section "receivers" receiver_0_36_0 cfg)
      (edit_section "exporters" exporter_0_36_0)

unfoldable pub upgrade0_36_0 : Yaml → Otelcol → Outcome
upgrade0_36_0 y = edit_config y fields_0_36_0

-- The arguments of these names, and the others.
unfoldable pub found_args : List String → Map String → Map String
found_args names [] = []
found_args names ((k, v) ∷ args) =
    let rest = found_args names args in if elem k names then (k, v) ∷ rest else rest

unfoldable pub other_args : List String → Map String → Map String
other_args names [] = []
other_args names ((k, v) ∷ args) =
    let rest = other_args names args in if elem k names then rest else (k, v) ∷ rest

abbrev pub no_args : Map String → Bool
no_args [] = true
no_args (a ∷ as_) = false

-- The map at a key, or a new one.
abbrev pub map_at : Fields → String → Fields
map_at m k = elim (as_map (find m k)) [ none ↦ end | some n ↦ n ]

-- service.telemetry.<section>, filled in where it is empty.
unfoldable pub set_telemetry : String → (Fields → Fields) → Fields → Fields
set_telemetry section fill cfg =
    let service = map_at cfg "service" in
    let telemetry = map_at service "telemetry" in
    let old = map_at telemetry section in
    let new = if is_end old then fill old else old in
    set cfg "service" (obj (set service "telemetry" (obj (set telemetry section (obj new)))))

abbrev pub copy_arg : Map String → String → String → Fields → Fields
copy_arg args name k m = elim (get args name) [ none ↦ m | some v ↦ set m k (str v) ]

unfoldable pub move_args :
    Yaml → List String → String → (Map String → Fields → Fields) → Otelcol → Outcome
move_args y names section fill o =
    let found = found_args names o.args in
    let rest = record o { args = other_args names o.args } in
    if no_args found
    then ok rest
    else edit y (λ s. s) (λ cfg. edited (set_telemetry section (fill found) cfg)) rest

abbrev pub logging_args : List String
logging_args = "--log-level" ∷ "--log-profile" ∷ "--log-format" ∷ []

unfoldable pub fill_logs : Map String → Fields → Fields
fill_logs args m =
    let leveled = copy_arg args "--log-level" "level" m in
    let profiled : Fields = elim (get args "--log-profile") [
      | none ↦ leveled
      | some v ↦ set leveled "development" (bool true)
    ] in
    copy_arg args "--log-format" "encoding" profiled

unfoldable pub upgrade0_38_0 : Yaml → Otelcol → Outcome
upgrade0_38_0 y o = if no_args o.args then ok o else move_args y logging_args "logs" fill_logs o

abbrev pub metrics_args : List String
metrics_args = "--metrics-addr" ∷ "--metrics-level" ∷ []

unfoldable pub fill_metrics : Map String → Fields → Fields
fill_metrics args m =
    copy_arg args "--metrics-level" "level" (copy_arg args "--metrics-addr" "address" m)

unfoldable pub upgrade0_43_0 : Yaml → Otelcol → Outcome
upgrade0_43_0 y o =
    if no_args o.args then ok o else move_args y metrics_args "metrics" fill_metrics o
