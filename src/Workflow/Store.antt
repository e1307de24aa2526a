-- ===== src/Workflow/Store.antt =====
-- app/workflow/store.ts: the operations on the stored workflows. Each is one statement or one
-- transaction of the database, from the tables before to the tables after.
pub mod Tables
pub mod Create
pub mod Lease
pub mod Promote
pub use Tables.*
unfoldable pub use Create.*
unfoldable pub use Lease.*
unfoldable pub use Promote.*
