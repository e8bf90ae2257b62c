-- ===== src/Instrumentation.antt =====
-- pkg/instrumentation and apis/v1alpha1/instrumentation_webhook.go: the auto-instrumentation that
-- the pod webhook injects.
pub mod Types
pub mod Env
pub mod Agents
pub mod GoAgent
pub mod Resources
pub mod Sdk
pub mod Apache
pub mod Inject
pub mod Mutator
pub mod Webhook
pub mod Examples
pub mod MutatorExamples
pub mod WebhookExamples
