-- ===== src/Prelude/Dict.antt =====
-- A Python dict as an association list in insertion order, each key once (`IsUnique`).
mod Laws
pub mod Evict
pub mod Newest
mod Defs
unfoldable pub use Defs.*
pub use Laws.*
