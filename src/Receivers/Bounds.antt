-- ===== src/Receivers/Bounds.antt =====
-- The range of the ports that are opened.
pub mod Parsers
pub mod Configuration
use Prim.Native.Nat.{Ordering}
use Prim.Native.String
use opentelemetry_operator.Prelude.{
  ℕ, String, Bool, true, false, List, [], ◌∷◌, ◌++◌, Option, none, some, ◌≡◌, refl, sym, ◌∙◌, ◌==◌,
  ◌||◌, ◌&&◌, Bool-cases, inl, inr, arith, if◌then◌else◌, eq_of_some, leb, ltb, subst,
}
use opentelemetry_operator.GoMap.{Map, get}
use opentelemetry_operator.Yaml.{
  Value, null, bool, num, str, seq, string_maps, obj, Fields, end, field, find, as_map,
}
use opentelemetry_operator.Upgrade.Middle.{map_at}
use opentelemetry_operator.Receivers.Parser.{
  ServicePort, Single, port, no_port, panic, max_int32, in_range, port_from_endpoint, first_number,
  from_endpoint, from_section, section_at, syslog_port, single_port_from_config_endpoint,
  GenericReceiver, generic_ports, plain, receiver_type,
}
use opentelemetry_operator.Receivers.Protocols.{
  Protocol, settings_port, protocol_ports, protocols_ports, jaeger_protocols, jaeger_ports,
  otlp_protocols, otlp_ports,
}
use opentelemetry_operator.Receivers.Registry.{
  Builder, generic, jaeger, otlp, registry, with_default, builder_for, built_ports, ports_for,
}
use opentelemetry_operator.Receivers.Enabled.{is_enabled, get_enabled_receivers}
use opentelemetry_operator.Receivers.Ports.{
  PortsResult, ports, receiver_ports, insert_by_name, sort_by_name, sorted, ports_of_enabled,
  settings, config_to_receiver_ports,
}

-- Whether a port is positive and fits an int32.
abbrev pub is_port : ℕ → Bool
is_port n = ltb 0 n && leb n max_int32

unfoldable pub all_ports : List ServicePort → Bool
all_ports [] = true
all_ports (p ∷ ps) = is_port p.port && all_ports ps

in_range_lem : (o : Option ℕ) (n : ℕ) → in_range o ≡ some n → is_port n ≡ true
unfolding in_range
in_range_lem none n h = cc h
in_range_lem (some m) n h = elim (Bool-cases (is_port m)) [
  | inl e ↦ let same : m ≡ n = eq_of_some (rw (in_range, e) at h) in rw (← same) e
  | inr e ↦ absurd (cc (rw (in_range, e) at h))
]

parsed_port :
    (name e : String) (o : Option ℕ) (p : ServicePort)
    → port_from_endpoint e ≡ o
    → from_endpoint name (some (str e)) ≡ port p
    → is_port p.port ≡ true
unfolding from_endpoint port_from_endpoint
parsed_port name e none p f h = absurd (cc (rw (from_endpoint, f) at h))
parsed_port name e (some n) p f h =
    let same : plain name n ≡ p = cc (rw (from_endpoint, f) at h) in
    rw (← same) (in_range_lem (first_number e) n f)

from_endpoint-is_port :
    (name : String) (v : Option Value) (p : ServicePort)
    → from_endpoint name v ≡ port p
    → is_port p.port ≡ true
unfolding from_endpoint
from_endpoint-is_port name none p h = cc h
from_endpoint-is_port name (some (str e)) p h = parsed_port name e (port_from_endpoint e) p refl h
from_endpoint-is_port name (some null) p h = cc h
from_endpoint-is_port name (some (bool b)) p h = cc h
from_endpoint-is_port name (some (num i)) p h = cc h
from_endpoint-is_port name (some (seq xs)) p h = cc h
from_endpoint-is_port name (some (string_maps xs)) p h = cc h
from_endpoint-is_port name (some (obj m)) p h = cc h

from_section-is_port :
    (name : String) (v : Value) (p : ServicePort)
    → from_section name v ≡ port p
    → is_port p.port ≡ true
from_section-is_port name (obj m) p h = from_endpoint-is_port name (find m "listen_address") p h
from_section-is_port name null p h = cc h
from_section-is_port name (bool b) p h = cc h
from_section-is_port name (num i) p h = cc h
from_section-is_port name (str s) p h = cc h
from_section-is_port name (seq xs) p h = cc h
from_section-is_port name (string_maps xs) p h = cc h

syslog-is_port :
    (name : String) (m : Fields) (u t : Option Value) (p : ServicePort)
    → section_at m "udp" ≡ u
    → section_at m "tcp" ≡ t
    → syslog_port name m ≡ port p
    → is_port p.port ≡ true
unfolding syslog_port
syslog-is_port name m (some v) t p eu et h =
    from_section-is_port name v p (rw (syslog_port, eu) at h)
syslog-is_port name m none (some v) p eu et h =
    from_section-is_port name v p (rw (syslog_port, eu, et) at h)
syslog-is_port name m none none p eu et h = absurd (cc (rw (syslog_port, eu, et) at h))

pub single-is_port :
    (name : String) (m : Fields) (p : ServicePort)
    → single_port_from_config_endpoint name m ≡ port p
    → is_port p.port ≡ true
unfolding single_port_from_config_endpoint
single-is_port name m p h = elim (Bool-cases (name == "syslog")) [
  | inl e ↦
      syslog-is_port name m (section_at m "udp") (section_at m "tcp") p refl refl
        (rw (single_port_from_config_endpoint, e) at h)
  | inr e ↦ elim (Bool-cases (name == "tcplog" || name == "udplog")) [
    | inl f ↦
        from_endpoint-is_port name (find m "listen_address") p
          (rw (single_port_from_config_endpoint, e, f) at h)
    | inr f ↦ elim (Bool-cases (name == "kubeletstats" || name == "prometheus")) [
      | inl g ↦ absurd (cc (rw (single_port_from_config_endpoint, e, f, g) at h))
      | inr g ↦
          from_endpoint-is_port name (find m "endpoint") p
            (rw (single_port_from_config_endpoint, e, f, g) at h)
    ]
  ]
]
