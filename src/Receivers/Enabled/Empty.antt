-- ===== src/Receivers/Enabled/Empty.antt =====
-- A pipeline without receivers.
use opentelemetry_operator.Prelude.{
  Bool, true, false, Option, none, some, ◌≡◌, ◌≢◌, ◌==◌, ◌||◌, Bool-cases, inl, inr, if◌then◌else◌,
}
use opentelemetry_operator.GoMap.{Map}
use opentelemetry_operator.Yaml.{
  Value, null, bool, num, str, seq, string_maps, obj, nil, item, Fields, end, field, find,
}
use opentelemetry_operator.Receivers.Enabled.{
  Progress, flags, nil_map, gives_up, panics, use_list, use_receivers, use_pipeline, use_pipelines,
}
use opentelemetry_operator.Receivers.Enabled.Laws.{from_nil, continued}

abbrev pub is_empty_list : Option Value → Bool
is_empty_list (some (seq nil)) = true
is_empty_list _ = false

abbrev pub uses_nothing : Value → Bool
uses_nothing (obj m) = is_empty_list (find m "receivers")
uses_nothing _ = false

-- Whether a pipeline that has a name has an empty list of receivers.
unfoldable pub some_uses_nothing : Fields → Bool
some_uses_nothing end = false
some_uses_nothing (field k v m) =
    let rest = some_uses_nothing m in if k == "" then rest else uses_nothing v || rest

empty_list :
    (v : Option Value) (p : Progress) (m : Map Bool)
    → is_empty_list v ≡ true
    → use_receivers v p ≡ flags m
    → true ≡ false
unfolding use_list
empty_list none p m e h = cc e
empty_list (some (seq nil)) (flags n) m e h = cc h
empty_list (some (seq nil)) nil_map m e h = cc h
empty_list (some (seq nil)) gives_up m e h = cc h
empty_list (some (seq nil)) panics m e h = cc h
empty_list (some (seq (item v xs))) p m e h = cc e
empty_list (some null) p m e h = cc e
empty_list (some (bool b)) p m e h = cc e
empty_list (some (num i)) p m e h = cc e
empty_list (some (str s)) p m e h = cc e
empty_list (some (string_maps ys)) p m e h = cc e
empty_list (some (obj f)) p m e h = cc e

empty_pipeline :
    (v : Value) (p : Progress) (m : Map Bool)
    → uses_nothing v ≡ true
    → use_pipeline v p ≡ flags m
    → true ≡ false
empty_pipeline (obj d) p m e h = empty_list (find d "receivers") p m e h
empty_pipeline null p m e h = cc e
empty_pipeline (bool b) p m e h = cc e
empty_pipeline (num i) p m e h = cc e
empty_pipeline (str s) p m e h = cc e
empty_pipeline (seq ys) p m e h = cc e
empty_pipeline (string_maps ys) p m e h = cc e

-- Where one of the pipelines that have a name has an empty list of receivers, the loop over the pipelines
-- ends without a map: no receiver is enabled, those of the other pipelines neither.
pub use_pipelines-some_uses_nothing :
    (ps : Fields) (p : Progress) (fs : Map Bool)
    → some_uses_nothing ps ≡ true
    → use_pipelines ps p ≢ flags fs
unfolding use_pipelines some_uses_nothing
use_pipelines-some_uses_nothing end p fs e h = absurd (cc e)
use_pipelines-some_uses_nothing (field k v ps) p fs e h = elim (Bool-cases (k == "")) [
  | inl f ↦
      use_pipelines-some_uses_nothing ps p fs (rw (some_uses_nothing, f) at e)
        (rw (use_pipelines, f) at h)
  | inr f ↦
      elim (continued "" (use_pipelines ps) (use_pipeline v p) fs (rw (use_pipelines, f) at h)) [
        | inl x ↦ absurd (cc (from_nil "" ps fs x.1))
        | inr y ↦ elim (Bool-cases (uses_nothing v)) [
          | inl g ↦ absurd (cc (empty_pipeline v p y.0 g y.1))
          | inr g ↦
              use_pipelines-some_uses_nothing ps (flags y.0) fs (rw (some_uses_nothing, f, g) at e)
                y.2
        ]
      ]
]
