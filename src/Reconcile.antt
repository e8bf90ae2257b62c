-- ===== src/Reconcile.antt =====
-- pkg/collector/reconcile: bringing the cluster to what a collector asks for.
pub mod Api
pub mod Task
pub mod Loops
pub mod Owned
pub mod ConfigMaps
pub mod Tasks
pub mod Controller
pub mod Memory
mod Examples
mod TaskExamples
mod OwnedExamples
mod ConfigMapExamples
pub mod Kinds
