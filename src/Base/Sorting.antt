-- ===== src/Base/Sorting.antt =====
-- Python's `sorted` on texts, and on values by a text key: a stable sort by code points.
mod Laws
pub use Laws.*
mod Defs
unfoldable pub use Defs.*
