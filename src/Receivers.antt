-- ===== src/Receivers.antt =====
-- pkg/collector/parser and pkg/collector/adapters: the ports that the receivers of a configuration listen
-- on, and the probe of its health check.
pub mod Parser
pub mod Protocols
pub mod Registry
pub mod Enabled
pub mod Ports
pub mod Probe
pub mod Bounds
mod Examples
