-- ===== src/Text.antt =====
-- `str` and `String`: a text is the list of its Unicode scalar values. The functions are those of
-- the standard library that the program calls.
mod Defs
pub mod Utf8
unfoldable pub use Defs.*
