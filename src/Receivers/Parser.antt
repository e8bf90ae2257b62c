-- ===== src/Receivers/Parser.antt =====
-- pkg/collector/parser/receiver.go and receiver_generic.go: the port of an endpoint.
use Prim.Native.Char.{code}
use Prim.Native.Nat.{◌/◌, ◌%◌}
use Prim.Native.String
use opentelemetry_operator.Prelude.{
  ℕ, zero, suc, ◌+◌, ◌*◌, ◌-◌, String, Bool, true, false, List, [], ◌∷◌, Option, none, some, not,
  ◌==◌, ◌&&◌, ◌||◌, ◌<+>◌, leb, ltb, nat_eq, cut, if◌then◌else◌,
}
use opentelemetry_operator.Yaml.{Value, null, str, obj, Fields, find}
use opentelemetry_operator.Prometheus.Rewrite.Escape.{char_at}

-- The fields of a service's port that the parsers set; `target` is the port of the container.
pub record ServicePort : Type 0 where
  pub name : String
  pub port : ℕ
  pub protocol : String
  pub app_protocol : Option String
  pub target : Option ℕ

unfoldable pub is_digit : ℕ → Bool
is_digit n = leb 48 n && leb n 57

unfoldable pub is_letter : ℕ → Bool
is_letter n = leb 65 n && leb n 90 || leb 97 n && leb n 122

-- The number that a text begins with, after digits that were read.
unfoldable pub number : ℕ → String → ℕ
number acc String.[] = acc
number acc (String.◌∷◌ c s) =
    let rest = number (acc * 10 + (code c - 48)) s in if is_digit (code c) then rest else acc

unfoldable pub starts_with_digit : String → Bool
starts_with_digit String.[] = false
starts_with_digit (String.◌∷◌ c s) = is_digit (code c)

-- The first match of the regular expression :[0-9]+ as a number.
unfoldable pub first_number : String → Option ℕ
first_number String.[] = none
first_number (String.◌∷◌ c s) =
    let rest = first_number s in
    if nat_eq (code c) 58 && starts_with_digit s then some (number 0 s) else rest

abbrev pub max_int32 : ℕ
max_int32 = 2147483647

-- strconv.ParseInt with 32 bits; `none` is an error, as is the port 0.
unfoldable pub in_range : Option ℕ → Option ℕ
in_range none = none
in_range (some n) = if ltb 0 n && leb n max_int32 then some n else none

unfoldable pub port_from_endpoint : String → Option ℕ
port_from_endpoint endpoint = in_range (first_number endpoint)

-- The decimal digits, the number of which is the fuel; an int32 has ten at most.
unfoldable pub decimal : ℕ → ℕ → String
decimal zero n = ""
decimal (suc digits) n =
    let rest = decimal digits (n / 10) in
    let last = char_at (n % 10) "0123456789" in if ltb n 10 then last else rest <+> last

-- strings.ReplaceAll of "/" and "_" by "-".
unfoldable pub dashed : String → String
dashed String.[] = ""
dashed (String.◌∷◌ c s) =
    if nat_eq (code c) 47 || nat_eq (code c) 95 then "-" <+> dashed s else String.◌∷◌ c (dashed s)

abbrev pub is_alphanumeric_code : ℕ → Bool
is_alphanumeric_code n = is_letter n || is_digit n

-- What follows in a text that matches dnsLabelValidation; the test is whether it may end here.
unfoldable pub label_from : Bool → String → Bool
label_from ends String.[] = ends
label_from ends (String.◌∷◌ c s) =
    let n = code c in
    (is_alphanumeric_code n || nat_eq n 45 || nat_eq n 46 || nat_eq n 95)
    && label_from (is_alphanumeric_code n) s

unfoldable pub is_label : String → Bool
is_label String.[] = true
is_label (String.◌∷◌ c s) = is_alphanumeric_code (code c) && label_from true s

unfoldable pub port_name : String → ℕ → String
port_name receiver port =
    if ltb 63 (String.len receiver) || not (is_label (dashed receiver))
    then "port-" <+> decimal 10 port
    else dashed receiver

unfoldable pub receiver_type : String → String
receiver_type name = elim (cut name 47) [ none ↦ name | some (a, b) ↦ a ]

-- A parser's port, none, or the panic of a type assertion.
pub data Single : Type 0 where
  port : ServicePort → Single
  no_port : Single
  panic : Single

abbrev pub plain : String → ℕ → ServicePort
plain receiver n = record {
  name = port_name receiver n;
  port = n;
  protocol = "";
  app_protocol = none;
  target = none;
}

-- What the endpoint gives, if there is one; errors are logged.
unfoldable pub from_endpoint : String → Option Value → Single
from_endpoint name (some (str e)) = elim (port_from_endpoint e) [
  | none ↦ no_port
  | some n ↦ port (plain name n)
]
from_endpoint name _ = no_port

-- The section udp or tcp of a syslog receiver, which must be a map.
abbrev pub from_section : String → Value → Single
from_section name (obj m) = from_endpoint name (find m "listen_address")
from_section name _ = panic

-- A section that is there and is not null.
abbrev pub section_at : Fields → String → Option Value
section_at m k = elim (find m k) [ none ↦ none | some null ↦ none | some v ↦ some v ]

unfoldable pub syslog_port : String → Fields → Single
syslog_port name config = elim (section_at config "udp") [
  | some v ↦ from_section name v
  | none ↦ elim (section_at config "tcp") [ some v ↦ from_section name v | none ↦ no_port ]
]

unfoldable pub single_port_from_config_endpoint : String → Fields → Single
single_port_from_config_endpoint name config =
    if name == "syslog"
    then syslog_port name config
    else if name == "tcplog" || name == "udplog"
    then from_endpoint name (find config "listen_address")
    else if name == "kubeletstats" || name == "prometheus"
    then no_port
    else from_endpoint name (find config "endpoint")

pub record GenericReceiver : Type 0 where
  pub default_port : ℕ
  pub default_protocol : String
  pub default_app_protocol : Option String

-- `none` is a panic.
unfoldable pub generic_ports : GenericReceiver → String → Fields → Option (List ServicePort)
generic_ports g name config = elim (single_port_from_config_endpoint name config) [
  | panic ↦ none
  | port p ↦
      some
        ((record p { protocol = g.default_protocol; app_protocol = g.default_app_protocol }) ∷ [])
  | no_port ↦ elim (ltb 0 g.default_port) [
    | false ↦ some []
    | true ↦ some (
        (record (plain name g.default_port) {
          protocol = g.default_protocol;
          app_protocol = g.default_app_protocol;
        })
        ∷ [])
  ]
]
