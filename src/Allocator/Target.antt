-- ===== src/Allocator/Target.antt =====
-- cmd/otel-allocator/target/target.go and the collectors of allocation/strategy.go.
use opentelemetry_operator.Prelude.{String, List}
use opentelemetry_operator.Prelude.Int.{ℤ, pos}
use opentelemetry_operator.GoMap.{Map}

abbrev pub LabelSet : Type 0
LabelSet = Map String

pub record Item : Type 0 where
  pub job_name : String
  pub link : String
  pub target_url : List String
  pub labels : LabelSet
  pub collector_name : String
  pub hash : String

pub record Collector : Type 0 where
  pub name : String
  pub num_targets : ℤ

unfoldable pub new_collector : String → Collector
new_collector name = record { name = name; num_targets = pos 0 }
