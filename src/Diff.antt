-- ===== src/Diff.antt =====
-- rust/crates/luck-core/src/diff.rs: differences between collections, their inverses, and their
-- application with a strategy for conflicts.
mod Compute
mod Apply
pub mod Fields
pub mod Agree
pub mod Maps
pub mod Scan
pub mod Loops
pub mod Reads
pub mod RoundTrip
pub mod Inverse
pub mod Empty
pub mod Nan
unfoldable pub use Compute.*
unfoldable pub use Apply.*
