-- ===== src/Receivers/Registry.antt =====
-- pkg/collector/parser: the parsers that register themselves.
use opentelemetry_operator.Prelude.{ℕ, String, List, [], ◌∷◌, Option, none, some}
use opentelemetry_operator.GoMap.{Map, get}
use opentelemetry_operator.Yaml.{Fields}
use opentelemetry_operator.Receivers.Parser.{
  ServicePort, GenericReceiver, generic_ports, receiver_type,
}
use opentelemetry_operator.Receivers.Protocols.{jaeger_ports, otlp_ports}

pub data Builder : Type 0 where
  generic : GenericReceiver → Builder
  jaeger : Builder
  otlp : Builder

abbrev pub with_default : ℕ → Builder
with_default n =
    generic (record { default_port = n; default_protocol = ""; default_app_protocol = none })

abbrev pub new_aws_xray_receiver_parser : Builder
new_aws_xray_receiver_parser = with_default 2000

abbrev pub new_carbon_receiver_parser : Builder
new_carbon_receiver_parser = with_default 2003

abbrev pub new_collectd_receiver_parser : Builder
new_collectd_receiver_parser = with_default 8081

abbrev pub new_fluent_forward_receiver_parser : Builder
new_fluent_forward_receiver_parser = with_default 8006

abbrev pub new_influxdb_receiver_parser : Builder
new_influxdb_receiver_parser = with_default 8086

abbrev pub new_open_census_receiver_parser : Builder
new_open_census_receiver_parser = with_default 55678

abbrev pub new_sapm_receiver_parser : Builder
new_sapm_receiver_parser = with_default 7276

abbrev pub new_signal_fx_receiver_parser : Builder
new_signal_fx_receiver_parser = with_default 9943

abbrev pub new_splunk_hec_receiver_parser : Builder
new_splunk_hec_receiver_parser = with_default 8088

abbrev pub new_statsd_receiver_parser : Builder
new_statsd_receiver_parser =
    generic (record { default_port = 8125; default_protocol = "UDP"; default_app_protocol = none })

abbrev pub new_wavefront_receiver_parser : Builder
new_wavefront_receiver_parser = with_default 2003

abbrev pub new_zipkin_scribe_receiver_parser : Builder
new_zipkin_scribe_receiver_parser = with_default 9410

abbrev pub new_zipkin_receiver_parser : Builder
new_zipkin_receiver_parser =
    generic
      (record { default_port = 9411; default_protocol = "TCP"; default_app_protocol = some "http" })

unfoldable pub registry : Map Builder
registry =
    ("awsxray", new_aws_xray_receiver_parser)
    ∷ ("carbon", new_carbon_receiver_parser)
    ∷ ("collectd", new_collectd_receiver_parser)
    ∷ ("fluentforward", new_fluent_forward_receiver_parser)
    ∷ ("influxdb", new_influxdb_receiver_parser)
    ∷ ("jaeger", jaeger)
    ∷ ("opencensus", new_open_census_receiver_parser)
    ∷ ("otlp", otlp)
    ∷ ("sapm", new_sapm_receiver_parser)
    ∷ ("signalfx", new_signal_fx_receiver_parser)
    ∷ ("splunk_hec", new_splunk_hec_receiver_parser)
    ∷ ("statsd", new_statsd_receiver_parser)
    ∷ ("wavefront", new_wavefront_receiver_parser)
    ∷ ("zipkin-scribe", new_zipkin_scribe_receiver_parser)
    ∷ ("zipkin", new_zipkin_receiver_parser)
    ∷ []

unfoldable pub builder_for : String → Builder
builder_for name = elim (get registry (receiver_type name)) [ none ↦ with_default 0 | some b ↦ b ]

abbrev pub built_ports : Builder → String → Fields → Option (List ServicePort)
built_ports (generic g) = generic_ports g
built_ports jaeger = jaeger_ports
built_ports otlp = otlp_ports

-- Ports of the parser that For returns; `none` is a panic.
unfoldable pub ports_for : String → Fields → Option (List ServicePort)
ports_for name config = built_ports (builder_for name) name config
