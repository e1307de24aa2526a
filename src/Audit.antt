-- ===== src/Audit.antt =====
-- packages/audit/src: how the app and the api write their audit record.
pub mod Actor
pub mod Event
pub mod Writer
pub mod Batch
