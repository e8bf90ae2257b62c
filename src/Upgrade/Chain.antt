-- ===== src/Upgrade/Chain.antt =====
-- pkg/collector/upgrade: upgrade.go and versions.go.
pub mod Laws
pub mod Patches
use opentelemetry_operator.Prelude.{
  String, Bool, true, false, Option, none, some, List, [], ◌∷◌, ◌==◌, ◌&&◌, nat_eq,
}
use opentelemetry_operator.Prelude.Int.{ℤ, pos, negsuc}
use opentelemetry_operator.GoMap.{Map, get}
use opentelemetry_operator.Reconcile.Api.{Api}
use opentelemetry_operator.Naming.Names.{open_telemetry_collector_name}
use opentelemetry_operator.Upgrade.Types.{Otelcol, Outcome, ok, err, panic, Yaml, Tools}
use opentelemetry_operator.Upgrade.Early.{
  upgrade0_2_10, upgrade0_9_0, upgrade0_15_0, upgrade0_19_0, upgrade0_24_0, upgrade0_31_0,
}
use opentelemetry_operator.Upgrade.Middle.{upgrade0_36_0, upgrade0_38_0, upgrade0_43_0}
use opentelemetry_operator.Upgrade.Renames.{upgrade0_39_0, upgrade0_41_0}
use opentelemetry_operator.Upgrade.Late.{ScaleTarget, upgrade0_56_0, upgrade0_57_2, upgrade0_61_0}

-- github.com/Masterminds/semver.
pub record Semver : Type 1 where
  pub Version : Type 0
  pub new_version : String → Option Version
  pub must_parse : String → Version
  pub print : Version → String
  pub greater : Version → Version → Bool

-- A routine with the version that it leads to, on a server of this type.
pub record OtelcolVersion (V : Type 0) (S : Type 0) : Type 0 where
  pub version : V
  pub upgrade : Otelcol → S → Outcome × S

module _ (sem : Semver) (api : Api ScaleTarget) (t : Tools) where
  -- A routine that does not ask the server.
  abbrev pub local : String → (Otelcol → Outcome) → OtelcolVersion sem.Version api.Server
  local v f = record { version = sem.must_parse v; upgrade = λ o s. (f o, s) }

  unfoldable pub versions : List (OtelcolVersion sem.Version api.Server)
  versions =
      local "0.2.10" upgrade0_2_10
      ∷ local "0.9.0" (upgrade0_9_0 t.yaml)
      ∷ local "0.15.0" upgrade0_15_0
      ∷ local "0.19.0" (upgrade0_19_0 t.yaml)
      ∷ local "0.24.0" (upgrade0_24_0 t.yaml)
      ∷ local "0.31.0" (upgrade0_31_0 t.yaml)
      ∷ local "0.36.0" (upgrade0_36_0 t.yaml)
      ∷ local "0.38.0" (upgrade0_38_0 t.yaml)
      ∷ local "0.39.0" (upgrade0_39_0 t.yaml)
      ∷ local "0.41.0" (upgrade0_41_0 t.yaml)
      ∷ local "0.43.0" (upgrade0_43_0 t.yaml)
      ∷ (record {
        version = sem.must_parse "0.56.0";
        upgrade = upgrade0_56_0 api (open_telemetry_collector_name t.text t.to_lower);
      })
      ∷ local "0.57.2" (upgrade0_57_2 t.yaml)
      ∷ local "0.61.0" (upgrade0_61_0 t.yaml)
      ∷ []

  abbrev pub latest : sem.Version
  latest = sem.must_parse "0.61.0"

module _ (sem : Semver) {S : Type 0} where
  -- What follows a routine: the version is set and the loop goes on.
  abbrev pub after_step : (Otelcol → S → Outcome × S) → sem.Version → Outcome × S → Outcome × S
  after_step rest v (ok o, s) = rest (record o { version = sem.print v }) s
  after_step rest v (err e, s) = (err e, s)
  after_step rest v (panic, s) = (panic, s)

  -- The loop over the versions that are available.
  unfoldable pub run_newer :
      List (OtelcolVersion sem.Version S) → sem.Version → Otelcol → S → Outcome × S
  run_newer [] v o s = (ok o, s)
  run_newer (a ∷ as_) v o s = elim (sem.greater a.version v) [
    | false ↦ run_newer as_ v o s
    | true ↦ after_step (run_newer as_ v) a.version (a.upgrade o s)
  ]

  abbrev pub at_version : String → Outcome × S → Outcome × S
  at_version v (ok o, s) = (ok (record o { version = v }), s)
  at_version v (err e, s) = (err e, s)
  at_version v (panic, s) = (panic, s)

  -- What is done with the version that is read, `last` being that of the last routine.
  abbrev pub with_version :
      List (OtelcolVersion sem.Version S)
      → sem.Version
      → String
      → Otelcol
      → S
      → Option sem.Version
      → Outcome × S
  with_version available last current o s none =
      (err "failed to parse version for OpenTelemetry Collector instance", s)
  with_version available last current o s (some v) = elim (sem.greater v last) [
    | true ↦ (ok o, s)
    | false ↦ at_version current (run_newer available v o s)
  ]

  -- `last` is the version of the last routine, `current` the operator's.
  unfoldable pub managed_instance :
      List (OtelcolVersion sem.Version S) → sem.Version → String → Otelcol → S → Outcome × S
  managed_instance available last current o s = elim (o.version == "") [
    | true ↦ (ok o, s)
    | false ↦ with_version available last current o s (sem.new_version o.version)
  ]

abbrev pub int_eq : ℤ → ℤ → Bool
int_eq (pos m) (pos n) = nat_eq m n
int_eq (negsuc m) (negsuc n) = nat_eq m n
int_eq _ _ = false

abbrev pub option_eq : Option ℤ → Option ℤ → Bool
option_eq none none = true
option_eq (some m) (some n) = int_eq m n
option_eq _ _ = false

-- Each key of the first map is in the second, with its value.
abbrev pub is_in : Map String → Map String → Bool
is_in [] n = true
is_in ((k, v) ∷ m) n = elim (get n k) [ none ↦ false | some w ↦ (v == w) && is_in m n ]

-- reflect.DeepEqual
unfoldable pub deep_equal : Otelcol → Otelcol → Bool
deep_equal a b =
    a.config == b.config
    && a.version == b.version
    && option_eq a.min_replicas b.min_replicas
    && option_eq a.max_replicas b.max_replicas
    && a.namespace == b.namespace
    && a.name == b.name
    && a.upgrade_strategy == b.upgrade_strategy
    && is_in a.args b.args
    && is_in b.args a.args

-- ManagedInstance on a collector, which is passed by value, but for its Args, a map of Go that it shares
-- with the caller's: `left_args` is what the caller's map holds after the call.
pub record Upgrader (S : Type 0) : Type 0 where
  pub run : Otelcol → S → Outcome × S
  pub left_args : Otelcol → S → Map String

abbrev pub left_original : {S : Type 0} → Upgrader S → Otelcol → S → Otelcol
left_original up o s = record o { args = up.left_args o s }

abbrev pub args_of : Outcome → Map String → Map String
args_of (ok n) args = n.args
args_of (err e) args = args
args_of panic args = args

module _ (sem : Semver) (api : Api ScaleTarget) (t : Tools) (current : String) where
  abbrev upgraded : Otelcol → api.Server → Outcome × api.Server
  upgraded = managed_instance sem (versions sem api t) (latest sem api t) current

  -- The routines of `versions` do not assign Args: upgrade0_15_0, upgrade0_38_0 and upgrade0_43_0 delete
  -- from the map, so that the caller's holds what the result's does. After an error it is not read.
  abbrev pub upgrader : Upgrader api.Server
  upgrader = record { run = upgraded; left_args = λ o s. args_of (upgraded o s).0 o.args }

-- The client's calls for the collectors: a patch is given the original and the new one.
pub record Collectors (S : Type 0) : Type 0 where
  pub list : S → Map String → Option (List Otelcol) × S
  pub patch : S → Otelcol → Otelcol → Option String × S
  pub patch_status : S → Otelcol → Otelcol → Option String × S

abbrev pub managed_labels : Map String
managed_labels = ("app.kubernetes.io/managed-by", "opentelemetry-operator") ∷ []

module _ {S : Type 0} (c : Collectors S) where
  abbrev pub patched : Otelcol → Otelcol → Option String × S → S
  patched original upgraded (none, s) = (c.patch_status s original upgraded).1
  patched original upgraded (some e, s) = s

  -- `original` is the collector of the list, as it is after the upgrade. The second result says whether
  -- the operator still runs.
  abbrev pub save : Otelcol → Outcome × S → S × Bool
  save original (err e, s) = (s, true)
  save original (panic, s) = (s, false)
  save original (ok o, s) = elim (deep_equal o original) [
    | true ↦ (s, true)
    | false ↦ (patched original o (c.patch s original o), true)
  ]

  abbrev pub if_running : (S → S × Bool) → S × Bool → S × Bool
  if_running rest (s, true) = rest s
  if_running rest (s, false) = (s, false)

  unfoldable pub upgrade_all : Upgrader S → List Otelcol → S → S × Bool
  upgrade_all up [] s = (s, true)
  upgrade_all up (o ∷ os) s = elim (o.upgrade_strategy == "none") [
    | true ↦ upgrade_all up os s
    | false ↦ if_running (upgrade_all up os) (save (left_original up o s) (up.run o s))
  ]

  abbrev pub upgrade_listed : Upgrader S → Option (List Otelcol) × S → Option String × (S × Bool)
  upgrade_listed up (none, s) = (some "failed to list", (s, true))
  upgrade_listed up (some os, s) = (none, upgrade_all up os s)

  unfoldable pub managed_instances : Upgrader S → S → Option String × (S × Bool)
  managed_instances up s = upgrade_listed up (c.list s managed_labels)
