-- ===== src/Binary.antt =====
-- rust/crates/luck-core/src/binary.rs: the binary archive of a collection of cookies.
mod Writer
mod Reader
mod Codec
pub mod Little
pub mod Strings
pub mod Metadata
pub mod Entries
pub mod Encode
pub mod RoundTrip
unfoldable pub use Writer.*
unfoldable pub use Reader.*
unfoldable pub use Codec.*
