-- ===== src/Validation.antt =====
-- rust/crates/luck-core/src/validation.rs: the rules on a cookie, as a report of issues.
mod Report
mod Rules
pub mod Equations
pub mod Spec
pub mod Conforming
pub mod Conform
unfoldable pub use Report.*
unfoldable pub use Rules.*
