-- ===== src/Examples.antt =====
-- Concrete inputs.
pub mod Fixtures
pub mod Storing
pub mod Running
pub mod Granting
pub mod Auditing
pub mod Deciding
pub mod Chatting
pub mod Deleting
