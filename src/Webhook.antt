-- ===== src/Webhook.antt =====
-- apis/v1alpha1/opentelemetrycollector_webhook.go: the defaults and the validation of an
-- OpenTelemetryCollector.
pub mod Types
pub mod Default
pub mod Validate
pub mod Examples
