-- ===== src/Allocator/PreHookExamples.antt =====
-- The relabel filter and a registry on small inputs.
use opentelemetry_operator.Prelude.{
  String, List, [], ◌∷◌, none, some, ◌==◌, if◌then◌else◌, arith, eq_iff,
}
use opentelemetry_operator.GoMap.{Map, get}
use opentelemetry_operator.Allocator.Target.{Item}
use opentelemetry_operator.Allocator.State.Targets.{IsHashed}
use opentelemetry_operator.Allocator.PreHook.{Config, RelabelConfigTargetFilter, Process}

-- A configuration drops every target if its action is drop.
abbrev process : Process
process lset cfg = if cfg.action == "drop" then none else some lset

abbrev configs : Map (List Config)
configs =
    ("job", record { regex = "$(SHARD)"; action = "keep" } ∷ [])
    ∷ ("other", record { regex = ""; action = "drop" } ∷ [])
    ∷ []

abbrev filter : RelabelConfigTargetFilter
filter = record { relabel_cfg = configs }

abbrev item : String → String → Item
item job hash = record {
  job_name = job;
  link = "";
  target_url = [];
  labels = [];
  collector_name = "";
  hash = hash;
}

abbrev targets : Map Item
targets = ("a", item "job" "a") ∷ ("b", item "other" "b") ∷ []

targets-IsHashed : IsHashed targets
unfolding get
targets-IsHashed k it e = ground (arith, e, eq_iff "a" k, eq_iff "b" k)

abbrev registry : Map String
registry = ("least-weighted", "lw") ∷ []
