-- ===== src/Collector.antt =====
-- pkg/collector: what the operator builds for a collector.
pub mod Annotations
pub mod Labels
mod Examples
