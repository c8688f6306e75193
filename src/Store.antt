-- ===== src/Store.antt =====
-- rust/crates/luck-core/src/store.rs: the versioned store of cookies and its transactions.
mod Defs
mod Transaction
pub mod Edits
pub mod Restore
pub mod Commit
pub mod Reach
pub mod Rollback
unfoldable pub use Defs.*
unfoldable pub use Transaction.*
