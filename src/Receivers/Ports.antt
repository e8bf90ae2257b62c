-- ===== src/Receivers/Ports.antt =====
-- pkg/collector/adapters/config_to_ports.go: the ports of the receivers that are enabled.
use opentelemetry_operator.Prelude.{Bool, true, false, List, [], ◌∷◌, Option, none, some}
use Prim.Native.Nat.{Ordering}
use Prim.Native.String
use opentelemetry_operator.GoMap.{Map}
use opentelemetry_operator.Yaml.{Value, obj, Fields, end, field, find, as_map}
use opentelemetry_operator.Receivers.Parser.{ServicePort}
use opentelemetry_operator.Receivers.Protocols.{joined}
use opentelemetry_operator.Receivers.Registry.{ports_for}
use opentelemetry_operator.Receivers.Enabled.{
  Progress, flags, nil_map, gives_up, panics, get_enabled_receivers, is_enabled,
}

pub data PortsResult : Type 0 where
  ports : List ServicePort → PortsResult
  no_receivers : PortsResult
  receivers_not_a_map : PortsResult
  panic : PortsResult

-- The settings of a receiver; those that are no map count as none.
abbrev pub settings : Value → Fields
settings (obj m) = m
settings _ = end

-- The loop over the receivers; `none` is a panic.
unfoldable pub receiver_ports : Map Bool → Fields → Option (List ServicePort)
receiver_ports enabled end = some []
receiver_ports enabled (field k v m) = elim (is_enabled enabled k) [
  | false ↦ receiver_ports enabled m
  | true ↦ joined (ports_for k (settings v)) (receiver_ports enabled m)
]

unfoldable pub insert_by_name : ServicePort → List ServicePort → List ServicePort
insert_by_name p [] = p ∷ []
insert_by_name p (q ∷ qs) = elim (String.compare p.name q.name) [
  | Ordering.gt ↦ q ∷ insert_by_name p qs
  | _ ↦ p ∷ q ∷ qs
]

-- sort.Slice by the name; ports of one name stay in their order here, and may take any there.
unfoldable pub sort_by_name : List ServicePort → List ServicePort
sort_by_name [] = []
sort_by_name (p ∷ ps) = insert_by_name p (sort_by_name ps)

abbrev pub sorted : Option (List ServicePort) → PortsResult
sorted none = panic
sorted (some ps) = ports (sort_by_name ps)

abbrev pub ports_of_enabled : Fields → Progress → PortsResult
ports_of_enabled config gives_up = receivers_not_a_map
ports_of_enabled config nil_map = receivers_not_a_map
ports_of_enabled config panics = panic
ports_of_enabled config (flags enabled) = elim (as_map (find config "receivers")) [
  | none ↦ receivers_not_a_map
  | some receivers ↦ sorted (receiver_ports enabled receivers)
]

unfoldable pub config_to_receiver_ports : Fields → PortsResult
config_to_receiver_ports config = elim (find config "receivers") [
  | none ↦ no_receivers
  | some v ↦ ports_of_enabled config (get_enabled_receivers config)
]
