-- ===== src/Workflow.antt =====
-- app/workflow: the engine that applies an integration to Keycloak.
pub mod Types
pub mod Backoff
pub mod Audit
pub mod Store
pub mod Steps
pub mod Orchestrator
pub mod Enqueue
pub mod Recovery
pub mod Lifecycle
