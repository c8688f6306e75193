-- ===== src/OrdMap.antt =====
-- `BTreeMap<K, V>` and `BTreeSet<K>` of the standard library, which the program uses for stores,
-- indexes and metadata.
mod Defs
pub mod Laws
pub mod Order
unfoldable pub use Defs.*
