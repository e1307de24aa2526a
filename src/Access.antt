-- ===== src/Access.antt =====
-- Who may do what to an integration: app/utils/authorize.ts and app/queries.
pub mod AppRoles
pub mod Integration
pub mod Scope
