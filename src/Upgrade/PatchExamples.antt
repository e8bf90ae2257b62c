-- ===== src/Upgrade/PatchExamples.antt =====
-- A client that notes the patches of ManagedInstances, for a collector that loses an argument.
use opentelemetry_operator.Prelude.{none, some, List, [], ◌∷◌, ◌≡◌, ◌==◌, false}
use opentelemetry_operator.Upgrade.Types.{Otelcol, ok}
use opentelemetry_operator.Upgrade.Early.{upgrade0_15_0}
use opentelemetry_operator.Upgrade.Chain.{Upgrader, args_of, Collectors}

abbrev Log : Type 0
Log = List (Otelcol × Otelcol)

abbrev old : Otelcol
old = record {
  namespace = "prod";
  name = "web";
  config = "";
  args = ("--new-metrics", "true") ∷ ("--feature-gates", "x") ∷ [];
  min_replicas = none;
  max_replicas = none;
  upgrade_strategy = "automatic";
  version = "0.14.0";
}

abbrev noting : Collectors Log
noting = record {
  list = λ s sel. (some (old ∷ []), s);
  patch = λ s a b. (none, (a, b) ∷ s);
  patch_status = λ s a b. (none, (a, b) ∷ s);
}

abbrev up : Upgrader Log
up = record {
  run = λ o s. (upgrade0_15_0 (record o { version = "0.64.1" }), s);
  left_args = λ o s. args_of (upgrade0_15_0 o) o.args;
}

-- Each patch is to what an upgrade of a collector that may be upgraded returned.
abbrev IsSent : Otelcol × Otelcol → Type 0
IsSent (a, b) =
    (o : Otelcol) × (t : Log) × ((o.upgrade_strategy == "none") ≡ false) × ((up.run o t).0 ≡ ok b)

abbrev AllSent : Log → Type 0
AllSent [] = Unit
AllSent (x ∷ log) = IsSent x × AllSent log
