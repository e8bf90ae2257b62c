-- ===== src/Naming.antt =====
-- pkg/naming: the names of the objects that the operator makes.
pub mod Truncate
pub mod Texts
pub mod Names
pub mod Dns
mod Examples
mod DnsExamples
