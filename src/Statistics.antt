-- ===== src/Statistics.antt =====
-- rust/crates/luck-core/src/statistics.rs: counts and distributions over a collection.
mod Arithmetic
mod Distribution
mod Compute
pub mod Balance
pub mod Percentiles
pub use Arithmetic.*
unfoldable pub use Distribution.*
unfoldable pub use Compute.*
