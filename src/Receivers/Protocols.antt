-- ===== src/Receivers/Protocols.antt =====
-- pkg/collector/parser: receiver_jaeger.go and receiver_otlp.go.
use opentelemetry_operator.Prelude.{ℕ, String, List, [], ◌∷◌, ◌++◌, Option, none, some, ◌<+>◌}
use opentelemetry_operator.Yaml.{Value, obj, Fields, find}
use opentelemetry_operator.Upgrade.Middle.{map_at}
use opentelemetry_operator.Receivers.Parser.{
  ServicePort, Single, port, no_port, panic, plain, single_port_from_config_endpoint,
}

pub record Protocol : Type 0 where
  pub name : String
  pub default_ports : List ServicePort
  pub transport : String
  pub app_protocol : Option String

-- The port of the settings; they may be missing.
abbrev pub settings_port : String → Value → Single
settings_port name (obj m) = single_port_from_config_endpoint name m
settings_port name _ = no_port

-- The ports of a protocol that is there; `none` is a panic.
unfoldable pub protocol_ports : String → Protocol → Value → Option (List ServicePort)
protocol_ports receiver p v = elim (settings_port (receiver <+> "-" <+> p.name) v) [
  | panic ↦ none
  | no_port ↦ some p.default_ports
  | port q ↦ some ((record q { protocol = p.transport; app_protocol = p.app_protocol }) ∷ [])
]

-- The ports of a part and those of the rest.
abbrev pub joined :
    Option (List ServicePort) → Option (List ServicePort) → Option (List ServicePort)
joined none rest = none
joined (some here) none = none
joined (some here) (some rest) = some (here ++ rest)

unfoldable pub protocols_ports : String → List Protocol → Fields → Option (List ServicePort)
protocols_ports receiver [] config = some []
protocols_ports receiver (p ∷ ps) config = elim (find config p.name) [
  | none ↦ protocols_ports receiver ps config
  | some v ↦ joined (protocol_ports receiver p v) (protocols_ports receiver ps config)
]

abbrev pub jaeger_protocol : String → String → ℕ → String → Option String → Protocol
jaeger_protocol receiver name n transport app = record {
  name = name;
  default_ports =
      (record (plain (receiver <+> "-" <+> name) n) { protocol = transport; app_protocol = app })
      ∷ [];
  transport = transport;
  app_protocol = app;
}

unfoldable pub jaeger_protocols : String → List Protocol
jaeger_protocols receiver =
    jaeger_protocol receiver "grpc" 14250 "TCP" (some "grpc")
    ∷ jaeger_protocol receiver "thrift_http" 14268 "TCP" (some "http")
    ∷ jaeger_protocol receiver "thrift_compact" 6831 "UDP" none
    ∷ jaeger_protocol receiver "thrift_binary" 6832 "UDP" none
    ∷ []

abbrev pub otlp_port : String → ℕ → ℕ → String → ServicePort
otlp_port name n target app = record (plain name n) {
  target = some target;
  app_protocol = some app;
}

-- The default ports have no transport protocol, which means TCP.
unfoldable pub otlp_protocols : String → List Protocol
otlp_protocols receiver =
    (record {
      name = "grpc";
      default_ports = otlp_port (receiver <+> "-grpc") 4317 4317 "grpc" ∷ [];
      transport = "TCP";
      app_protocol = some "grpc";
    })
    ∷ (record {
      name = "http";
      default_ports =
          otlp_port (receiver <+> "-http") 4318 4318 "http"
          ∷ otlp_port (receiver <+> "-http-legacy") 55681 4318 "http"
          ∷ [];
      transport = "TCP";
      app_protocol = some "http";
    })
    ∷ []

unfoldable pub jaeger_ports : String → Fields → Option (List ServicePort)
jaeger_ports receiver config =
    protocols_ports receiver (jaeger_protocols receiver) (map_at config "protocols")

unfoldable pub otlp_ports : String → Fields → Option (List ServicePort)
otlp_ports receiver config =
    protocols_ports receiver (otlp_protocols receiver) (map_at config "protocols")
