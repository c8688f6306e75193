-- ===== src/Parsing.antt =====
-- rust/crates/luck-core/src/parse/: the input formats. The JSON reader stands on another crate and
-- is a parameter.
mod Texts
mod Simple
mod Netscape
mod SetCookie
mod Entry
pub mod Reports
pub mod Panics
unfoldable pub use Texts.*
unfoldable pub use Simple.*
unfoldable pub use SetCookie.*
unfoldable pub use Entry.*
