-- ===== src/Authz.antt =====
-- packages/authz: the permission vocabulary, its sets, the presets and the organizations' reach.
pub mod Permissions
pub mod Sets
pub mod Presets
pub mod Organization
