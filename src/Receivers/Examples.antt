-- ===== src/Receivers/Examples.antt =====
-- A collector with three receivers, of which its pipelines use two.
use opentelemetry_operator.Prelude.{
  Bool, true, false, List, [], ◌∷◌, none, some, ◌≡◌, ◌≢◌, refl, has_prefix, cut, split,
}
use opentelemetry_operator.GoMap.{Map, get, put}
use opentelemetry_operator.Yaml.{
  null, str, seq, obj, Items, nil, item, Fields, end, field, find, as_map,
}
use opentelemetry_operator.Receivers.Parser.{
  ServicePort, is_digit, is_letter, number, starts_with_digit, first_number, in_range,
  port_from_endpoint, decimal, dashed, label_from, is_label, port_name, receiver_type,
  from_endpoint, single_port_from_config_endpoint, generic_ports,
}
use opentelemetry_operator.Receivers.Protocols.{
  protocol_ports, protocols_ports, otlp_protocols, otlp_ports,
}
use opentelemetry_operator.Receivers.Registry.{registry, builder_for, ports_for}
use opentelemetry_operator.Receivers.Enabled.{
  flags, available, enable, only_enabled, use_list, use_pipelines, get_enabled_receivers,
  is_enabled,
}
use opentelemetry_operator.Receivers.Enabled.Flags.{listed}
use opentelemetry_operator.Receivers.Enabled.Laws.{get_enabled_receivers-listed}
use opentelemetry_operator.Receivers.Enabled.Empty.{
  some_uses_nothing, use_pipelines-some_uses_nothing,
}
use opentelemetry_operator.Receivers.Ports.{
  receiver_ports, insert_by_name, sort_by_name, config_to_receiver_ports, ports,
}
use opentelemetry_operator.Receivers.Bounds.{all_ports}
use opentelemetry_operator.Receivers.Bounds.Configuration.{config_to_receiver_ports-all_ports}
use opentelemetry_operator.Receivers.Probe.{
  http_get, parsed, config_to_container_probe, service_probe, probe_of, first_probe,
  create_probe_from_extension, port_of, health_checks,
}

abbrev receivers : Fields
receivers =
    field "otlp/2" (obj (field "protocols" (obj (field "grpc" null end)) end))
      (field "zipkin" (obj (field "endpoint" (str "0.0.0.0:9400") end)) (field "carbon" null end))

abbrev uses : Items → Fields
uses xs = field "receivers" (seq xs) end

abbrev pipelines : Fields
pipelines =
    field "traces" (obj (uses (item (str "otlp/2") nil)))
      (field "metrics" (obj (uses (item (str "zipkin") (item (str "otlp/2") nil)))) end)

abbrev service : Fields
service =
    field "pipelines" (obj pipelines) (field "extensions" (seq (item (str "health_check") nil)) end)

abbrev config : Fields
config = field "receivers" (obj receivers) (
    field "service" (obj service) (
      field "extensions"
        (obj (field "health_check" (obj (field "endpoint" (str "localhost:13134") end)) end)) end))

abbrev enabled : Map Bool
enabled = ("otlp/2", true) ∷ ("zipkin", true) ∷ []

enables : get_enabled_receivers config ≡ flags enabled
unfolding get_enabled_receivers available enable only_enabled use_list use_pipelines find put
enables = refl

get_enabled_receivers-listed_example :
    (s : Fields) × (ps : Fields) × (as_map (find config "service") ≡ some s)
    × (as_map (find s "pipelines") ≡ some ps)
    × (is_enabled enabled "zipkin" ≡ listed ps "zipkin")
get_enabled_receivers-listed_example = get_enabled_receivers-listed "zipkin" config enabled enables

abbrev half_empty : Fields
half_empty =
    field "metrics" (obj (uses nil)) (field "traces" (obj (uses (item (str "otlp/2") nil))) end)

half_empty_lem : some_uses_nothing half_empty ≡ true
unfolding some_uses_nothing find
half_empty_lem = refl

use_pipelines-some_uses_nothing_example :
    use_pipelines half_empty (flags (("otlp/2", false) ∷ [])) ≢ flags enabled
use_pipelines-some_uses_nothing_example =
    use_pipelines-some_uses_nothing half_empty (flags (("otlp/2", false) ∷ [])) enabled
      half_empty_lem

abbrev opened : List ServicePort
opened =
    (record {
      name = "otlp-2-grpc";
      port = 4317;
      protocol = "";
      app_protocol = some "grpc";
      target = some 4317;
    })
    ∷ (record {
      name = "zipkin";
      port = 9400;
      protocol = "TCP";
      app_protocol = some "http";
      target = none;
    })
    ∷ []

opens : config_to_receiver_ports config ≡ ports opened
unfolding config_to_receiver_ports get_enabled_receivers available enable only_enabled use_list
    use_pipelines find put get is_enabled receiver_ports insert_by_name sort_by_name registry
    builder_for ports_for protocol_ports protocols_ports otlp_protocols otlp_ports is_digit
    is_letter number starts_with_digit first_number in_range port_from_endpoint decimal dashed
    label_from is_label port_name receiver_type from_endpoint single_port_from_config_endpoint
    generic_ports cut
opens = refl

probes : config_to_container_probe config ≡ http_get "/" (parsed "13134")
unfolding config_to_container_probe service_probe probe_of first_probe create_probe_from_extension
    port_of health_checks find has_prefix split
probes = refl

config_to_receiver_ports-all_ports_example : all_ports opened ≡ true
config_to_receiver_ports-all_ports_example = config_to_receiver_ports-all_ports config opened opens
