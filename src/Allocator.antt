-- ===== src/Allocator.antt =====
-- The target allocator, cmd/otel-allocator.
pub mod Target
pub mod Diff
pub mod Mapping
pub mod State
pub mod LeastWeighted
pub mod ConsistentHashing
pub mod PreHook
pub mod Registry
pub mod Examples
pub mod PreHookExamples
pub mod RingExamples
