-- ===== src/Model.antt =====
-- rust/crates/luck-core/src/model.rs: cookies, their keys, and collections of cookies.
mod Cookies
mod Collection
pub mod Dedup
unfoldable pub use Cookies.*
unfoldable pub use Collection.*
