-- ===== src/Sidecar.antt =====
-- pkg/sidecar: the collector that the pod webhook adds as a container, or removes.
pub mod Attributes
pub mod Mutator
pub mod Examples
