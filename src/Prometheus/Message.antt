-- ===== src/Prometheus/Message.antt =====
-- The texts of the errors of config_to_prom_config.go and config_from.go.
use opentelemetry_operator.Prelude.{ℕ, String, ◌<+>◌}
use opentelemetry_operator.Receivers.Parser.{decimal}
use opentelemetry_operator.Prometheus.Config.{
  Problem, invalid_yaml, cannot_marshal, no_component, not_a_map, not_a_map_at, not_a_list,
  not_a_list_at, not_a_string_at, neither_present,
}

-- An index has fewer digits than the fuel.
unfoldable pub at_index : String → ℕ → String → String
at_index component i what =
    "index "
    <+> decimal 20 i
    <+> ": "
    <+> component
    <+> " property in the configuration doesn't contain a valid "
    <+> what
    <+> ": "
    <+> component

-- `marshal_error` is the text of yaml.v2.
unfoldable pub message : String → Problem → String
message marshal_error invalid_yaml = "couldn't parse the opentelemetry-collector configuration"
message marshal_error cannot_marshal = marshal_error
message marshal_error (no_component c) = "no " <+> c <+> " available as part of the configuration"
message marshal_error (not_a_map c) =
    c <+> " property in the configuration doesn't contain valid " <+> c
message marshal_error (not_a_map_at c i) = at_index c i "map"
message marshal_error (not_a_list c) = c <+> " must be a list in the config"
message marshal_error (not_a_list_at c i) = at_index c i "index"
message marshal_error (not_a_string_at c i) = at_index c i "string"
message marshal_error neither_present =
    "either target allocator or prometheus config needs to be present"
