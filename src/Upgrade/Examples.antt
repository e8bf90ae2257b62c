-- ===== src/Upgrade/Examples.antt =====
-- A collector of version 0.20.0 that is brought to the operator's, and its autoscaler.
use opentelemetry_operator.Prelude.{
  ℕ, String, false, none, some, [], ◌∷◌, ◌≡◌, refl, ◌==◌, ltb, nat_eq, if◌then◌else◌, has_prefix,
}
use opentelemetry_operator.Prelude.Int.{pos}
use opentelemetry_operator.GoMap.{Map, get}
use opentelemetry_operator.Reconcile.Api.{Object, selected}
use opentelemetry_operator.Reconcile.Memory.{matching, replace}
use opentelemetry_operator.Reconcile.Memory
use opentelemetry_operator.Reconcile.Memory.Store.{
  Store, memory, mem_list, mem_patch, patched, with_objects,
}
use opentelemetry_operator.Yaml.{Fields, field, end, str, num, obj, edited, find, set, remove, each}
use opentelemetry_operator.Yaml.Laws.{any}
use opentelemetry_operator.Upgrade.Types.{Otelcol, ok, Yaml, Tools, edit, edit_config}
use opentelemetry_operator.Upgrade.Early.{
  upgrade0_2_10, upgrade0_9_0, upgrade0_15_0, upgrade0_19_0, upgrade0_24_0, upgrade0_31_0,
  fields_0_24_0, extension_0_24_0, health_check_0_24_0, move_port, fields_0_31_0,
}
use opentelemetry_operator.Upgrade.Middle.{
  upgrade0_36_0, upgrade0_38_0, upgrade0_43_0, fields_0_36_0,
}
use opentelemetry_operator.Upgrade.Renames.{
  upgrade0_39_0, upgrade0_41_0, rename_receivers, drop_nulls,
}
use opentelemetry_operator.Upgrade.Early.Laws.{fields_0_24_0-has_port, has_port}
use opentelemetry_operator.Upgrade.Late.{
  ScaleTarget, upgrade0_56_0, retarget, upgrade0_57_2, upgrade0_61_0, join_ports, samples_remotely,
}
use opentelemetry_operator.Upgrade.Chain.{Semver, run_newer, managed_instance, versions}
use opentelemetry_operator.Upgrade.Chain.Laws.{
  newer, Applied, managed_instance-Applied, managed_instance_idem,
}

-- Versions of three numbers, of which the first is 0.
abbrev numbers : Map ℕ
numbers =
    ("0.2.10", 210)
    ∷ ("0.9.0", 900)
    ∷ ("0.15.0", 1500)
    ∷ ("0.19.0", 1900)
    ∷ ("0.20.0", 2000)
    ∷ ("0.24.0", 2400)
    ∷ ("0.31.0", 3100)
    ∷ ("0.36.0", 3600)
    ∷ ("0.38.0", 3800)
    ∷ ("0.39.0", 3900)
    ∷ ("0.41.0", 4100)
    ∷ ("0.43.0", 4300)
    ∷ ("0.56.0", 5600)
    ∷ ("0.57.2", 5702)
    ∷ ("0.61.0", 6100)
    ∷ ("0.64.1", 6401)
    ∷ []

abbrev number : String → ℕ
number s = elim (get numbers s) [ none ↦ 0 | some n ↦ n ]

abbrev sem : Semver
sem = record {
  Version = ℕ;
  new_version = get numbers;
  must_parse = number;
  print = λ n. if nat_eq n 2400 then "0.24.0" else "later";
  greater = λ m n. ltb n m;
}

abbrev health_check : Fields → Fields
health_check ext =
    field "exporters" (obj end)
      (field "extensions" (obj (field "health_check/1" (obj ext) end)) end)

abbrev yaml : Yaml
yaml = record {
  parse =
      λ s. some (health_check (if s == "port" then field "port" (num (pos 13133)) end else end));
  marshal = λ m. some "moved";
  format_d = λ v. "13133";
  format_s = λ v. "text";
}

abbrev tools : Tools
tools = record { yaml = yaml; text = λ bs. "web"; to_lower = λ x. x }

abbrev web : Otelcol
web = record {
  namespace = "prod";
  name = "web";
  config = "port";
  args = [];
  min_replicas = none;
  max_replicas = some (pos 3);
  upgrade_strategy = "automatic";
  version = "0.20.0";
}

abbrev autoscaler : String → String → ScaleTarget → Object ScaleTarget
autoscaler name_ owner target = record {
  namespace = "prod";
  name = name_;
  labels =
      ("app.kubernetes.io/instance", owner)
      ∷ ("app.kubernetes.io/managed-by", "opentelemetry-operator")
      ∷ [];
  annotations = [];
  owners = [];
  spec = target;
}

abbrev deployment : ScaleTarget
deployment = record { kind = "Deployment"; name = "web-collector"; api_version = "apps/v1" }

abbrev before : Store ScaleTarget
before = record {
  objects =
      autoscaler "web-collector" "prod.web" deployment
      ∷ autoscaler "db-collector" "prod.db" deployment
      ∷ [];
  faults = [];
  distinct = (refl, (refl, tt));
}

abbrev upgraded : Otelcol
upgraded = record web { config = "moved"; min_replicas = some (pos 1); version = "0.64.1" }

abbrev after : Store ScaleTarget
after = (managed_instance sem (versions sem memory tools) 6100 "0.64.1" web before).1

upgrades :
    managed_instance sem (versions sem memory tools) 6100 "0.64.1" web before ≡ (ok upgraded, after)
unfolding managed_instance versions run_newer upgrade0_2_10 upgrade0_9_0 upgrade0_15_0 upgrade0_19_0
    upgrade0_24_0 upgrade0_31_0 upgrade0_36_0 upgrade0_38_0 upgrade0_39_0 upgrade0_41_0
    upgrade0_43_0 upgrade0_56_0 upgrade0_57_2 upgrade0_61_0 edit edit_config fields_0_24_0
    extension_0_24_0 health_check_0_24_0 move_port fields_0_31_0 fields_0_36_0 rename_receivers
    drop_nulls join_ports samples_remotely retarget each find set remove mem_list mem_patch patched
    with_objects matching replace selected get Memory.find has_prefix
upgrades = refl

none_newer : newer sem 6401 (versions sem memory tools) ≡ []
unfolding newer versions get
none_newer = refl

parsed_web : sem.new_version web.version ≡ some 2000
unfolding get
parsed_web = refl

parsed_current : sem.new_version "0.64.1" ≡ some 6401
unfolding get
parsed_current = refl

managed_instance-Applied_example :
    (o : Otelcol) × Applied sem (newer sem 2000 (versions sem memory tools)) web before o after
    × (upgraded ≡ record o { version = "0.64.1" })
managed_instance-Applied_example =
    managed_instance-Applied sem (versions sem memory tools) 6100 2000 "0.64.1" web upgraded before
      after refl parsed_web refl upgrades

managed_instance_idem_example :
    managed_instance sem (versions sem memory tools) 6100 "0.64.1" upgraded after
    ≡ (ok upgraded, after)
managed_instance_idem_example =
    managed_instance_idem sem (versions sem memory tools) 6100 6401 "0.64.1" web upgraded before
      after parsed_current none_newer upgrades

abbrev with_port : Fields
with_port = field "port" (num (pos 13133)) end

abbrev moved_port : Fields
moved_port = field "endpoint" (str "0.0.0.0:13133") end

moves : fields_0_24_0 yaml (health_check with_port) ≡ edited (health_check moved_port)
unfolding fields_0_24_0 extension_0_24_0 health_check_0_24_0 move_port each find set remove
    has_prefix
moves = refl

fields_0_24_0-has_port_example :
    ((m : Fields) × (find (health_check moved_port) "extensions" ≡ some (obj m))
      × (any has_port m ≡ false))
    × (find (health_check moved_port) "exporters" ≡ find (health_check with_port) "exporters")
fields_0_24_0-has_port_example =
    fields_0_24_0-has_port yaml (health_check with_port) (health_check moved_port) "exporters" refl
      moves
