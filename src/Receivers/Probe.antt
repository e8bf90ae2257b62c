-- ===== src/Receivers/Probe.antt =====
-- pkg/collector/adapters/config_to_probe.go: the probe of the health_check extension.
use opentelemetry_operator.Prelude.{
  String, List, [], ◌∷◌, Option, none, some, has_prefix, split, if◌then◌else◌,
}
use opentelemetry_operator.Yaml.{Value, str, obj, Items, nil, item, Fields, find, as_map}
use opentelemetry_operator.Prometheus.Config.{as_list}

pub data ProbeError : Type 0 where
  no_service : ProbeError
  service_not_a_map : ProbeError
  no_service_extensions : ProbeError
  service_extensions_not_slice : ProbeError
  no_service_extension_health_check : ProbeError
  no_extensions : ProbeError
  extensions_not_a_map : ProbeError
  no_extension_health_check : ProbeError

-- A port as intstr.Parse reads it is kept as its text.
pub data ProbePort : Type 0 where
  default_port : ProbePort
  parsed : String → ProbePort

pub data Probe : Type 0 where
  http_get : String → ProbePort → Probe
  no_probe : ProbeError → Probe

unfoldable pub health_checks : Items → List String
health_checks nil = []
health_checks (item (str s) xs) =
    let rest = health_checks xs in if has_prefix s "health_check" then s ∷ rest else rest
health_checks (item v xs) = health_checks xs

abbrev pub path_of : Option Value → String
path_of (some (str p)) = p
path_of _ = "/"

-- The second of two parts.
abbrev pub second_part : List String → ProbePort
second_part (a ∷ b ∷ []) = parsed b
second_part _ = default_port

unfoldable pub port_of : Option Value → ProbePort
port_of (some (str e)) = second_part (split e 58)
port_of _ = default_port

unfoldable pub create_probe_from_extension : Value → Probe
create_probe_from_extension (obj m) =
    http_get (path_of (find m "path")) (port_of (find m "endpoint"))
create_probe_from_extension _ = http_get "/" default_port

-- The first health check that is configured.
unfoldable pub first_probe : Fields → List String → Probe
first_probe extensions [] = no_probe no_extension_health_check
first_probe extensions (k ∷ ks) = elim (find extensions k) [
  | some v ↦ create_probe_from_extension v
  | none ↦ first_probe extensions ks
]

unfoldable pub probe_of : Fields → List String → Probe
probe_of config [] = no_probe no_service_extension_health_check
probe_of config (k ∷ ks) = elim (find config "extensions") [
  | none ↦ no_probe no_extensions
  | some v ↦ elim (as_map (some v)) [
    | none ↦ no_probe extensions_not_a_map
    | some m ↦ first_probe m (k ∷ ks)
  ]
]

unfoldable pub service_probe : Fields → Fields → Probe
service_probe config service = elim (find service "extensions") [
  | none ↦ no_probe no_service_extensions
  | some v ↦ elim (as_list v) [
    | none ↦ no_probe service_extensions_not_slice
    | some xs ↦ probe_of config (health_checks xs)
  ]
]

unfoldable pub config_to_container_probe : Fields → Probe
config_to_container_probe config = elim (find config "service") [
  | none ↦ no_probe no_service
  | some v ↦ elim (as_map (some v)) [
    | none ↦ no_probe service_not_a_map
    | some service ↦ service_probe config service
  ]
]
