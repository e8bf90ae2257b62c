-- ===== src/Upgrade/Early/Laws.antt =====
-- The ports of the health checks after v0_24_0.go.
use opentelemetry_operator.Prelude.{
  String, Bool, false, Option, none, some, ◌≡◌, refl, ◌==◌, ◌&&◌, ◌<+>◌, Bool-cases, inl, inr,
  arith, has_prefix, is_some, ◌∙◌,
}
use opentelemetry_operator.Yaml.{
  Value, null, bool, num, str, seq, string_maps, obj, Fields, find, set, remove, as_map, keep,
  Edited, edited, left, failed, panicked, each, then_edit,
}
use opentelemetry_operator.Yaml.Laws.{any, any-each, find-remove, find-set, find-set_other}
use opentelemetry_operator.Upgrade.Types.{Yaml}
use opentelemetry_operator.Upgrade.Early.{
  move_port, health_check_0_24_0, extension_0_24_0, fields_0_24_0,
}

-- Whether an extension is a health check with a port.
pub has_port : String → Value → Bool
has_port k (obj m) = has_prefix k "health_check" && is_some (find m "port")
has_port k _ = false

module _ (y : Yaml) where
  moved : (m : Fields) (v : Option Value) → find m "port" ≡ v → find (move_port y m) "port" ≡ none
  unfolding move_port
  moved m none e = rw (e, move_port, e) refl
  moved m (some p) e =
      let endpoint = str ("0.0.0.0:" <+> y.format_d p) in
      rw (e, move_port)
        (find-set_other (remove m "port") "endpoint" "port" endpoint refl ∙ find-remove m "port")

  find-move_port : (m : Fields) → find (move_port y m) "port" ≡ none
  find-move_port m = moved m (find m "port") refl

  written-has_port :
      (k : String) (v w : Value) → health_check_0_24_0 y v ≡ keep w → has_port k w ≡ false
  unfolding health_check_0_24_0 has_port
  written-has_port k (obj m) w h =
      let same : w ≡ obj (move_port y m) = cc h in
      rw (same, has_port, find-move_port m) (ground arith)
  written-has_port k (str s) w h = let same : w ≡ str s = cc h in rw (same, has_port) refl
  written-has_port k null w h = let same : w ≡ null = cc h in rw (same, has_port) refl
  written-has_port k (bool b) w h = cc h
  written-has_port k (num i) w h = cc h
  written-has_port k (seq i) w h = cc h
  written-has_port k (string_maps i) w h = cc h

  other-has_port :
      (k : String) (v : Value) → has_prefix k "health_check" ≡ false → has_port k v ≡ false
  unfolding has_port
  other-has_port k (obj m) h = rw h refl
  other-has_port k (str s) h = refl
  other-has_port k null h = refl
  other-has_port k (bool b) h = refl
  other-has_port k (num i) h = refl
  other-has_port k (seq i) h = refl
  other-has_port k (string_maps i) h = refl

  round-has_port :
      (k : String) (v w : Value) → extension_0_24_0 y k v ≡ keep w → has_port k w ≡ false
  unfolding extension_0_24_0
  round-has_port k v w h = elim (Bool-cases (has_prefix k "health_check")) [
    | inl e ↦ written-has_port k v w (rw (e, extension_0_24_0) at h)
    | inr e ↦
        let same : v ≡ w = cc (rw (e, extension_0_24_0) at h) in rw (← same) (other-has_port k v e)
  ]

  rewritten :
      (cfg n : Fields) (k : String) (e : Edited)
      → ("extensions" == k) ≡ false
      → ((m : Fields) → e ≡ edited m → any has_port m ≡ false)
      → then_edit e (λ m. edited (set cfg "extensions" (obj m))) ≡ edited n
      → ((m : Fields) × (find n "extensions" ≡ some (obj m)) × (any has_port m ≡ false))
        × (find n k ≡ find cfg k)
  rewritten cfg n k (edited m) other gone h =
      let same : set cfg "extensions" (obj m) ≡ n = cc h in
      rw (← same) (
        (m, find-set cfg "extensions" (obj m), gone m refl),
        find-set_other cfg "extensions" k (obj m) other,
      )
  rewritten cfg n k left other gone h = cc h
  rewritten cfg n k (failed x) other gone h = cc h
  rewritten cfg n k panicked other gone h = cc h

  extended :
      (cfg n : Fields) (k : String) (x : Option Fields)
      → as_map (find cfg "extensions") ≡ x
      → ("extensions" == k) ≡ false
      → fields_0_24_0 y cfg ≡ edited n
      → ((m : Fields) × (find n "extensions" ≡ some (obj m)) × (any has_port m ≡ false))
        × (find n k ≡ find cfg k)
  unfolding fields_0_24_0
  extended cfg n k none e other h = cc (rw (e, fields_0_24_0) at h)
  extended cfg n k (some m) e other h =
      rewritten cfg n k (each (extension_0_24_0 y) m) other
        (any-each (extension_0_24_0 y) has_port (round-has_port) m) (rw (e, fields_0_24_0) at h)

  -- A configuration that the routine of v0.24.0 has rewritten has no health check with a port among its
  -- extensions, and its other sections are as they were.
  pub fields_0_24_0-has_port :
      (cfg n : Fields) (k : String)
      → ("extensions" == k) ≡ false
      → fields_0_24_0 y cfg ≡ edited n
      → ((m : Fields) × (find n "extensions" ≡ some (obj m)) × (any has_port m ≡ false))
        × (find n k ≡ find cfg k)
  fields_0_24_0-has_port cfg n k other h =
      extended cfg n k (as_map (find cfg "extensions")) refl other h
