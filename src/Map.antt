-- ===== src/Map.antt =====
-- Rust's `BTreeMap<String, V>` and `BTreeSet<String>`: the entries in the order of their keys.
mod Defs
mod Laws
pub use Defs.{Map, keys, IsAscending}
unfoldable pub use Defs.{get, contains_key, insert, extend, contains}
pub use Laws.*
