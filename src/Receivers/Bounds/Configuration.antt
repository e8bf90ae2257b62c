-- ===== src/Receivers/Bounds/Configuration.antt =====
-- The range of the ports of a configuration.
use Prim.Native.Nat.{Ordering}
use Prim.Native.String
use opentelemetry_operator.Prelude.{
  Bool, true, List, [], ◌∷◌, Option, none, some, ◌≡◌, refl, ◌∙◌, ◌&&◌, Bool-cases, inl, inr, arith,
  eq_of_some,
}
use opentelemetry_operator.GoMap.{Map}
use opentelemetry_operator.Yaml.{Value, Fields, end, field, find, as_map}
use opentelemetry_operator.Receivers.Parser.{ServicePort}
use opentelemetry_operator.Receivers.Registry.{ports_for}
use opentelemetry_operator.Receivers.Enabled.{
  Progress, flags, nil_map, gives_up, panics, is_enabled, get_enabled_receivers,
}
use opentelemetry_operator.Receivers.Ports.{
  ports, receiver_ports, insert_by_name, sort_by_name, sorted, ports_of_enabled, settings,
  config_to_receiver_ports,
}
use opentelemetry_operator.Receivers.Bounds.{is_port, all_ports}
use opentelemetry_operator.Receivers.Bounds.Parsers.{joined_bound, ports_for_bound}

receiver_ports_bound :
    (enabled : Map Bool) (m : Fields) (ps : List ServicePort)
    → receiver_ports enabled m ≡ some ps
    → all_ports ps ≡ true
unfolding receiver_ports all_ports
receiver_ports_bound enabled end ps h = rw (← eq_of_some h) refl
receiver_ports_bound enabled (field k v m) ps h = elim (Bool-cases (is_enabled enabled k)) [
  | inr e ↦ receiver_ports_bound enabled m ps (rw (receiver_ports, e) at h)
  | inl e ↦
      joined_bound (ports_for k (settings v)) (receiver_ports enabled m) ps
        (λ qs. ports_for_bound k (settings v) qs) (λ qs. receiver_ports_bound enabled m qs)
        (rw (receiver_ports, e) at h)
]

inserted_bound :
    (p q : ServicePort) (qs : List ServicePort) (o : Ordering)
    → String.compare p.name q.name ≡ o
    → all_ports (insert_by_name p qs) ≡ (is_port p.port && all_ports qs)
    → all_ports (insert_by_name p (q ∷ qs)) ≡ (is_port p.port && all_ports (q ∷ qs))
unfolding insert_by_name all_ports
inserted_bound p q qs Ordering.lt e ih = rw (insert_by_name, e) refl
inserted_bound p q qs Ordering.eq e ih = rw (insert_by_name, e) refl
inserted_bound p q qs Ordering.gt e ih = rw (insert_by_name, e, all_ports, ih) (ground arith)

insert_bound :
    (p : ServicePort) (qs : List ServicePort)
    → all_ports (insert_by_name p qs) ≡ (is_port p.port && all_ports qs)
unfolding insert_by_name all_ports
insert_bound p [] = refl
insert_bound p (q ∷ qs) =
    inserted_bound p q qs (String.compare p.name q.name) refl (insert_bound p qs)

sort_bound : (ps : List ServicePort) → all_ports (sort_by_name ps) ≡ all_ports ps
unfolding sort_by_name all_ports
sort_bound [] = refl
sort_bound (p ∷ ps) = insert_bound p (sort_by_name ps) ∙ rw (sort_bound ps) refl

sorted_bound :
    (o : Option (List ServicePort)) (ps : List ServicePort)
    → ((qs : List ServicePort) → o ≡ some qs → all_ports qs ≡ true)
    → sorted o ≡ ports ps
    → all_ports ps ≡ true
sorted_bound none ps f h = cc h
sorted_bound (some qs) ps f h =
    let same : sort_by_name qs ≡ ps = cc h in rw (← same) (sort_bound qs ∙ f qs refl)

flags_bound :
    (config : Fields) (fs : Map Bool) (o : Option Fields) (ps : List ServicePort)
    → as_map (find config "receivers") ≡ o
    → ports_of_enabled config (flags fs) ≡ ports ps
    → all_ports ps ≡ true
flags_bound config fs none ps e h = absurd (cc (rw (ports_of_enabled, e) at h))
flags_bound config fs (some m) ps e h =
    sorted_bound (receiver_ports fs m) ps (λ qs. receiver_ports_bound fs m qs)
      (rw (ports_of_enabled, e) at h)

enabled_bound :
    (config : Fields) (p : Progress) (ps : List ServicePort)
    → ports_of_enabled config p ≡ ports ps
    → all_ports ps ≡ true
enabled_bound config (flags fs) ps h =
    flags_bound config fs (as_map (find config "receivers")) ps refl h
enabled_bound config nil_map ps h = cc h
enabled_bound config gives_up ps h = cc h
enabled_bound config panics ps h = cc h

found_bound :
    (config : Fields) (o : Option Value) (ps : List ServicePort)
    → find config "receivers" ≡ o
    → config_to_receiver_ports config ≡ ports ps
    → all_ports ps ≡ true
unfolding config_to_receiver_ports
found_bound config none ps e h = absurd (cc (rw (config_to_receiver_ports, e) at h))
found_bound config (some v) ps e h =
    enabled_bound config (get_enabled_receivers config) ps (rw (config_to_receiver_ports, e) at h)

-- Each port that ConfigToReceiverPorts returns is positive and fits an int32.
pub config_to_receiver_ports-all_ports :
    (config : Fields) (ps : List ServicePort)
    → config_to_receiver_ports config ≡ ports ps
    → all_ports ps ≡ true
config_to_receiver_ports-all_ports config ps h =
    found_bound config (find config "receivers") ps refl h
