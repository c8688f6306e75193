-- ===== src/Canonical.antt =====
-- rust/crates/luck-core/src/canonical.rs: the normal form of cookies, and of paths.
pub mod Split
pub mod Paths
pub mod Segments
pub mod Normal
pub mod Changes
pub mod Steps
pub mod Conform
