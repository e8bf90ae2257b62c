-- ===== src/Upgrade.antt =====
-- pkg/collector/upgrade: bringing a collector from the version that it has to the operator's.
pub mod Types
pub mod Early
pub mod Middle
pub mod Renames
pub mod Late
pub mod Chain
mod Examples
mod PatchExamples
