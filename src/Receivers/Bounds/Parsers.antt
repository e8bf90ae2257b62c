-- ===== src/Receivers/Bounds/Parsers.antt =====
-- The range of the ports of every parser.
use opentelemetry_operator.Prelude.{
  String, Bool, true, List, [], ◌∷◌, ◌++◌, Option, none, some, ◌≡◌, refl, ◌==◌, ◌&&◌, ◌<+>◌,
  Bool-cases, inl, inr, arith, eq_of_some, leb, ltb,
}
use opentelemetry_operator.GoMap.{Map, get}
use opentelemetry_operator.Yaml.{Value, null, bool, num, str, seq, string_maps, obj, Fields, find}
use opentelemetry_operator.Upgrade.Middle.{map_at}
use opentelemetry_operator.Receivers.Parser.{
  ServicePort, Single, port, no_port, panic, max_int32, single_port_from_config_endpoint,
  GenericReceiver, generic_ports, receiver_type,
}
use opentelemetry_operator.Receivers.Protocols.{
  Protocol, joined, settings_port, protocol_ports, protocols_ports, jaeger_protocols, jaeger_ports,
  otlp_protocols, otlp_ports,
}
use opentelemetry_operator.Receivers.Registry.{
  Builder, generic, jaeger, otlp, registry, builder_for, built_ports, ports_for,
}
use opentelemetry_operator.Receivers.Bounds.{is_port, all_ports, single-is_port}

all_ports-++ :
    (ps qs : List ServicePort)
    → all_ports ps ≡ true
    → all_ports qs ≡ true
    → all_ports (ps ++ qs) ≡ true
unfolding all_ports
all_ports-++ [] qs h g = g
all_ports-++ (p ∷ ps) qs h g = ground (arith, h, all_ports-++ ps qs (ground (arith, h)) g)

-- Whether the default port of a builder fits an int32.
abbrev pub has_bound : Builder → Bool
has_bound (generic g) = leb g.default_port max_int32
has_bound jaeger = true
has_bound otlp = true

generic_bound :
    (g : GenericReceiver) (name : String) (m : Fields) (x : Single) (ps : List ServicePort)
    → leb g.default_port max_int32 ≡ true
    → single_port_from_config_endpoint name m ≡ x
    → generic_ports g name m ≡ some ps
    → all_ports ps ≡ true
unfolding generic_ports all_ports
generic_bound g name m panic ps b e h = absurd (cc (rw (generic_ports, e) at h))
generic_bound g name m (port p) ps b e h =
    let valid = single-is_port name m p e in
    rw (← eq_of_some (rw (generic_ports, e) at h), all_ports) (ground (arith, valid))
generic_bound g name m no_port ps b e h = elim (Bool-cases (ltb 0 g.default_port)) [
  | inl f ↦ rw (← eq_of_some (rw (generic_ports, e, f) at h), all_ports) (ground (arith, b, f))
  | inr f ↦ rw (← eq_of_some (rw (generic_ports, e, f) at h), all_ports) refl
]

abbrev pub default_ports_bound : List Protocol → Bool
default_ports_bound [] = true
default_ports_bound (p ∷ ps) = all_ports p.default_ports && default_ports_bound ps

settings-is_port :
    (name : String) (v : Value) (p : ServicePort)
    → settings_port name v ≡ port p
    → is_port p.port ≡ true
settings-is_port name (obj m) p h = single-is_port name m p h
settings-is_port name null p h = cc h
settings-is_port name (bool b) p h = cc h
settings-is_port name (num i) p h = cc h
settings-is_port name (str s) p h = cc h
settings-is_port name (seq xs) p h = cc h
settings-is_port name (string_maps xs) p h = cc h

protocol_bound :
    (r : String) (p : Protocol) (v : Value) (x : Single) (ps : List ServicePort)
    → all_ports p.default_ports ≡ true
    → settings_port (r <+> "-" <+> p.name) v ≡ x
    → protocol_ports r p v ≡ some ps
    → all_ports ps ≡ true
unfolding protocol_ports all_ports
protocol_bound r p v panic ps b e h = absurd (cc (rw (protocol_ports, e) at h))
protocol_bound r p v no_port ps b e h = rw (← eq_of_some (rw (protocol_ports, e) at h)) b
protocol_bound r p v (port q) ps b e h =
    let valid = settings-is_port (r <+> "-" <+> p.name) v q e in
    rw (← eq_of_some (rw (protocol_ports, e) at h), all_ports) (ground (arith, valid))

pub joined_bound :
    (a b : Option (List ServicePort)) (ps : List ServicePort)
    → ((qs : List ServicePort) → a ≡ some qs → all_ports qs ≡ true)
    → ((qs : List ServicePort) → b ≡ some qs → all_ports qs ≡ true)
    → joined a b ≡ some ps
    → all_ports ps ≡ true
joined_bound none b ps f g h = cc h
joined_bound (some x) none ps f g h = cc h
joined_bound (some x) (some y) ps f g h =
    rw (← eq_of_some h) (all_ports-++ x y (f x refl) (g y refl))

there_bound :
    (r : String) (p : Protocol) (protocols : List Protocol) (m : Fields) (o : Option Value)
    (ps : List ServicePort)
    → all_ports p.default_ports ≡ true
    → ((qs : List ServicePort) → protocols_ports r protocols m ≡ some qs → all_ports qs ≡ true)
    → find m p.name ≡ o
    → protocols_ports r (p ∷ protocols) m ≡ some ps
    → all_ports ps ≡ true
unfolding protocols_ports
there_bound r p protocols m none ps b later e h = later ps (rw (protocols_ports, e) at h)
there_bound r p protocols m (some v) ps b later e h =
    joined_bound (protocol_ports r p v) (protocols_ports r protocols m) ps
      (λ qs. protocol_bound r p v (settings_port (r <+> "-" <+> p.name) v) qs b refl) later
      (rw (protocols_ports, e) at h)

protocols_bound :
    (r : String) (protocols : List Protocol) (m : Fields) (ps : List ServicePort)
    → default_ports_bound protocols ≡ true
    → protocols_ports r protocols m ≡ some ps
    → all_ports ps ≡ true
unfolding protocols_ports all_ports
protocols_bound r [] m ps b h = rw (← eq_of_some h) refl
protocols_bound r (p ∷ protocols) m ps b h =
    there_bound r p protocols m (find m p.name) ps (ground (arith, b))
      (λ qs. protocols_bound r protocols m qs (ground (arith, b))) refl h

jaeger_bound : (r : String) → default_ports_bound (jaeger_protocols r) ≡ true
unfolding jaeger_protocols all_ports
jaeger_bound r = refl

otlp_bound : (r : String) → default_ports_bound (otlp_protocols r) ≡ true
unfolding otlp_protocols all_ports
otlp_bound r = refl

built_bound :
    (b : Builder) (name : String) (m : Fields) (ps : List ServicePort)
    → has_bound b ≡ true
    → built_ports b name m ≡ some ps
    → all_ports ps ≡ true
unfolding jaeger_ports otlp_ports
built_bound (generic g) name m ps e h =
    generic_bound g name m (single_port_from_config_endpoint name m) ps e refl h
built_bound jaeger name m ps e h =
    protocols_bound name (jaeger_protocols name) (map_at m "protocols") ps (jaeger_bound name) h
built_bound otlp name m ps e h =
    protocols_bound name (otlp_protocols name) (map_at m "protocols") ps (otlp_bound name) h

abbrev pub all_bound : Map Builder → Bool
all_bound [] = true
all_bound ((k, b) ∷ m) = has_bound b && all_bound m

get_bound :
    (m : Map Builder) (k : String) (b : Builder)
    → all_bound m ≡ true
    → get m k ≡ some b
    → has_bound b ≡ true
unfolding get
get_bound [] k b a h = cc h
get_bound ((j, c) ∷ m) k b a h = elim (Bool-cases (j == k)) [
  | inl e ↦
      let same : c ≡ b = eq_of_some (rw (get, e) at h) in
      let first : has_bound c ≡ true = ground (arith, a) in rw (← same) first
  | inr e ↦ get_bound m k b (ground (arith, a)) (rw (get, e) at h)
]

registry_bound : all_bound registry ≡ true
unfolding registry
registry_bound = refl

builder_bound :
    (name : String) (o : Option Builder)
    → get registry (receiver_type name) ≡ o
    → has_bound (builder_for name) ≡ true
unfolding builder_for
builder_bound name none e = rw (builder_for, e) refl
builder_bound name (some b) e =
    rw (builder_for, e) (get_bound registry (receiver_type name) b registry_bound e)

pub ports_for_bound :
    (name : String) (m : Fields) (ps : List ServicePort)
    → ports_for name m ≡ some ps
    → all_ports ps ≡ true
unfolding ports_for
ports_for_bound name m ps h =
    built_bound (builder_for name) name m ps
      (builder_bound name (get registry (receiver_type name)) refl) h
