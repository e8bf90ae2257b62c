-- ===== src/Upgrade/Types.antt =====
-- pkg/collector/upgrade: what the routines read and write of a collector, and the frame that they share.
use opentelemetry_operator.Prelude.{ℕ, String, Option, none, some, ◌==◌, if◌then◌else◌}
use opentelemetry_operator.Prelude.Int.{ℤ}
use opentelemetry_operator.GoMap.{Map}
use opentelemetry_operator.Naming.Truncate.{Bytes}
use opentelemetry_operator.Yaml.{Value, Fields, Edited, edited, left, failed, panicked}

pub record Otelcol : Type 0 where
  pub namespace : String
  pub name : String
  pub config : String
  pub args : Map String
  pub min_replicas : Option ℤ
  pub max_replicas : Option ℤ
  pub upgrade_strategy : String
  pub version : String

pub data Outcome : Type 0 where
  ok : Otelcol → Outcome
  err : String → Outcome
  panic : Outcome

-- gopkg.in/yaml.v2, and fmt's verbs %d and %s of a value. A list of fields stands for a map of Go: yaml.v2
-- reads in any order and prints the keys sorted. What depends on the order takes it as a hypothesis, up to
-- Yaml.Same.
pub record Yaml : Type 0 where
  pub parse : String → Option Fields
  pub marshal : Fields → Option String
  pub format_d : Value → String
  pub format_s : Value → String

-- What a routine needs of its surroundings: yaml.v2, and for naming.OpenTelemetryCollectorName the
-- reading of bytes as a text and unicode.ToLower.
pub record Tools : Type 0 where
  pub yaml : Yaml
  pub text : Bytes → String
  pub to_lower : ℕ → ℕ

module _ (y : Yaml) where
  abbrev pub marshalled : (String → String) → Otelcol → Option String → Outcome
  marshalled text o none = err "failed to marshall back configuration"
  marshalled text o (some s) = ok (record o { config = text s })

  -- `text` is what is done to the text that is written back.
  abbrev pub write_back : (String → String) → Otelcol → Edited → Outcome
  write_back text o left = ok o
  write_back text o (failed e) = err e
  write_back text o panicked = panic
  write_back text o (edited cfg) = marshalled text o (y.marshal cfg)

  unfoldable pub edit : (String → String) → (Fields → Edited) → Otelcol → Outcome
  edit text f o = elim (y.parse o.config) [
    | none ↦ err "failed to parse configuration"
    | some cfg ↦ write_back text o (f cfg)
  ]

  -- The routines that return at once where there is no configuration.
  unfoldable pub edit_config : (Fields → Edited) → Otelcol → Outcome
  edit_config f o = if o.config == "" then ok o else edit (λ s. s) f o
