-- ===== src/Upgrade/Renames.antt =====
-- pkg/collector/upgrade: v0_39_0.go and v0_41_0.go.
use opentelemetry_operator.Prelude.{
  ℕ, zero, suc, String, true, false, Option, none, some, ◌||◌, ◌<+>◌, has_prefix, if◌then◌else◌,
  is_some,
}
use opentelemetry_operator.Yaml.{
  Value, str, seq, obj, Items, nil, item, Fields, end, field, find, set, remove, as_map, Round,
  keep, Edited, edited, left, failed, panicked, each, then_edit,
}
use opentelemetry_operator.Upgrade.Types.{Otelcol, Outcome, ok, err, Yaml, edit}
use opentelemetry_operator.Upgrade.Middle.{map_at}

-- A map at a key that is edited if it is there.
abbrev pub edit_if_there : String → (String → Value → Round) → Fields → Edited
edit_if_there section f cfg = elim (as_map (find cfg section)) [
  | none ↦ edited cfg
  | some m ↦ then_edit (each f m) (λ n. edited (set cfg section (obj n)))
]

unfoldable pub drop_ballast : Value → Round
drop_ballast (obj m) = keep (obj (remove m "ballast_size_mib"))
drop_ballast v = keep v

unfoldable pub processor_0_39_0 : String → Value → Round
processor_0_39_0 k v = if has_prefix k "memory_limiter" then drop_ballast v else keep v

unfoldable pub drop_chars : ℕ → String → String
drop_chars zero s = s
drop_chars (suc n) String.[] = String.[]
drop_chars (suc n) (String.◌∷◌ c s) = drop_chars n s

-- strings.Replace(k, "httpd", "apache", 1) of a text with that prefix.
unfoldable pub rename_httpd : String → String
rename_httpd k = "apache" <+> drop_chars 5 k

-- The receivers of a pipeline; `none` is one that is no text, which panics.
unfoldable pub rename_items : Items → Option Items
rename_items nil = some nil
rename_items (item (str s) xs) = elim (rename_items xs) [
  | none ↦ none
  | some ys ↦ some (item (str (if has_prefix s "httpd" then rename_httpd s else s)) ys)
]
rename_items (item v xs) = none

unfoldable pub rename_list : Fields → Edited
rename_list metrics = elim (find metrics "receivers") [
  | none ↦ edited metrics
  | some (seq xs) ↦ elim (rename_items xs) [
    | none ↦ panicked
    | some ys ↦ edited (set metrics "receivers" (seq ys))
  ]
  | some v ↦ left
]

unfoldable pub rename_metrics : Fields → Edited
rename_metrics pipelines = elim (find pipelines "metrics") [
  | none ↦ edited pipelines
  | some (obj m) ↦ then_edit (rename_list m) (λ n. edited (set pipelines "metrics" (obj n)))
  | some v ↦ left
]

unfoldable pub rename_pipelines : Fields → Edited
rename_pipelines cfg = elim (as_map (find cfg "service")) [
  | none ↦ left
  | some service ↦ elim (as_map (find service "pipelines")) [
    | none ↦ left
    | some pipelines ↦
        then_edit (rename_metrics pipelines)
          (λ n. edited (set cfg "service" (obj (set service "pipelines" (obj n)))))
  ]
]

unfoldable pub rename_receiver : Fields → String → Value → Fields
rename_receiver cfg k v =
    let receivers = map_at cfg "receivers" in
    set cfg "receivers" (obj (remove (set receivers (rename_httpd k) v) k))

unfoldable pub rename_receivers : Fields → Fields → Edited
rename_receivers end cfg = edited cfg
rename_receivers (field k v m) cfg = elim (has_prefix k "httpd") [
  | false ↦ rename_receivers m cfg
  | true ↦ then_edit (rename_pipelines (rename_receiver cfg k v)) (rename_receivers m)
]

-- strings.ReplaceAll(s, " null", ""); `skipped` counts the characters of a match that are left.
unfoldable pub drop_nulls : ℕ → String → String
drop_nulls skipped String.[] = String.[]
drop_nulls (suc n) (String.◌∷◌ c s) = drop_nulls n s
drop_nulls zero (String.◌∷◌ c s) = elim (has_prefix (String.◌∷◌ c s) " null") [
  | true ↦ drop_nulls 4 s
  | false ↦ String.◌∷◌ c (drop_nulls zero s)
]

-- The configuration is written back before the receivers are renamed, and again after.
module _ (y : Yaml) where
  abbrev pub renamed : Otelcol → Edited → Outcome
  renamed o (edited cfg) = elim (y.marshal cfg) [
    | none ↦ err "failed to marshall back configuration"
    | some s ↦ ok (record o { config = drop_nulls 0 s })
  ]
  renamed o left = ok o
  renamed o (failed e) = err e
  renamed o panicked = Outcome.panic

  abbrev pub write_and_rename : Otelcol → Edited → Outcome
  write_and_rename o (edited cfg) = elim (y.marshal cfg) [
    | none ↦ err "failed to marshall back configuration"
    | some s ↦
        renamed (record o { config = drop_nulls 0 s })
          (rename_receivers (map_at cfg "receivers") cfg)
  ]
  write_and_rename o left = ok o
  write_and_rename o (failed e) = err e
  write_and_rename o panicked = Outcome.panic

  unfoldable pub upgrade0_39_0 : Otelcol → Outcome
  upgrade0_39_0 o = elim (y.parse o.config) [
    | none ↦ err "couldn't upgrade to v0.39.0, failed to parse configuration"
    | some cfg ↦ write_and_rename o (edit_if_there "processors" processor_0_39_0 cfg)
  ]

abbrev pub copy_field : Fields → String → String → Fields → Fields
copy_field from k to m = elim (find from k) [ none ↦ m | some v ↦ set m to v ]

unfoldable pub move_cors : Fields → Fields
move_cors m =
    if is_some (find m "cors_allowed_origins") || is_some (find m "cors_allowed_headers")
    then (let origins = copy_field m "cors_allowed_origins" "allowed_origins" end in
        let cors = copy_field m "cors_allowed_headers" "allowed_headers" origins in
        remove (remove (set m "cors" (obj cors)) "cors_allowed_origins") "cors_allowed_headers")
    else m

unfoldable pub cors_0_41_0 : Value → Round
cors_0_41_0 (obj m) = keep (obj (move_cors m))
cors_0_41_0 v = keep v

unfoldable pub receiver_0_41_0 : String → Value → Round
receiver_0_41_0 k v = if has_prefix k "otlp" then cors_0_41_0 v else keep v

unfoldable pub upgrade0_41_0 : Yaml → Otelcol → Outcome
upgrade0_41_0 y = edit y (drop_nulls 0) (edit_if_there "receivers" receiver_0_41_0)
