-- ===== src/Policy.antt =====
-- app/utils/requestPolicy.ts: what an actor may change on an integration.
pub mod Values
pub mod Fields
pub mod Authority
pub mod Changes
pub mod Laws
pub mod Safety
pub mod Outsiders
