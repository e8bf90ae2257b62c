-- ===== src/Prometheus.antt =====
-- pkg/targetallocator/adapters/config_to_prom_config.go and its caller in pkg/collector/reconcile.
pub mod Config
pub mod Message
pub mod Unescape
pub mod Rewrite
pub mod Replace
pub mod Admission
mod Examples
pub mod AdmissionExamples
