-- ===== src/Naming/Names.antt =====
-- pkg/naming/main.go: the names of a collector's objects.
use opentelemetry_operator.Prelude.{ℕ, String, List, [], ◌∷◌, ◌++◌, codes}
use opentelemetry_operator.Naming.Truncate.{Bytes, truncate, with_suffix}
use opentelemetry_operator.Naming.Dns.{dns_name}
use opentelemetry_operator.Naming.Texts.{bytes}

-- fmt.Sprintf("%s-%s-route", prefix, name)
unfoldable pub route_format : List Bytes → Bytes
route_format (prefix ∷ name ∷ []) = prefix ++ (45 ∷ (name ++ bytes "-route"))
route_format _ = []

-- `text` reads bytes as a text, `to_lower` is unicode.ToLower. What DNSName returns is ASCII, so that its
-- code points are its bytes.
module _ (text : Bytes → String) (to_lower : ℕ → ℕ) where
  unfoldable pub dns_of : Bytes → String
  dns_of bs = text (dns_name to_lower (codes (text bs)))

  -- DNSName(Truncate("%s" + suffix, 63, name))
  unfoldable pub suffixed : String → String → String
  suffixed suffix name = dns_of (truncate (with_suffix (bytes suffix)) 63 (bytes name ∷ []))

  abbrev pub config_map_name : String → String
  config_map_name name = suffixed "-collector" name

  abbrev pub ta_config_map_name : String → String
  ta_config_map_name name = suffixed "-targetallocator" name

  abbrev pub workload_name : String → String
  workload_name name = suffixed "-collector" name

  abbrev pub horizontal_pod_autoscaler_name : String → String
  horizontal_pod_autoscaler_name name = suffixed "-collector" name

  abbrev pub open_telemetry_collector_name : String → String
  open_telemetry_collector_name name = suffixed "" name

  abbrev pub target_allocator_name : String → String
  target_allocator_name name = suffixed "-targetallocator" name

  abbrev pub service_name : String → String
  service_name name = suffixed "-collector" name

  abbrev pub headless_service_name : String → String
  headless_service_name name = suffixed "-headless" (service_name name)

  abbrev pub monitoring_service_name : String → String
  monitoring_service_name name = suffixed "-monitoring" (service_name name)

  abbrev pub ingress_name : String → String
  ingress_name name = suffixed "-ingress" name

  abbrev pub route_name : String → String → String
  route_name name prefix = dns_of (truncate route_format 63 (bytes prefix ∷ bytes name ∷ []))

  abbrev pub ta_service_name : String → String
  ta_service_name name = suffixed "-targetallocator" name

  abbrev pub service_account_name : String → String
  service_account_name name = suffixed "-collector" name

  abbrev pub target_allocator_service_account_name : String → String
  target_allocator_service_account_name name = suffixed "-targetallocator" name

-- The names that are constants.
abbrev pub config_map_volume : String
config_map_volume = "otc-internal"

abbrev pub ta_config_map_volume : String
ta_config_map_volume = "ta-internal"

abbrev pub collector_container : String
collector_container = "otc-container"

abbrev pub ta_container : String
ta_container = "ta-container"
