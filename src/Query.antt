-- ===== src/Query.antt =====
-- rust/crates/luck-core/src/query.rs: the query language, and queries over a collection.
mod Syntax
mod Matching
mod Lexer
mod Parser
pub mod Printer
pub mod Reads
pub mod Fields
pub mod Operands
pub mod Rendered
pub mod RoundTrip
pub mod Ends
pub mod Execute
pub use Syntax.*
unfoldable pub use Matching.*
unfoldable pub use Lexer.*
unfoldable pub use Parser.*
