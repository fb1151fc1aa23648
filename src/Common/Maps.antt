-- ===== src/Common/Maps.antt =====
-- Hash maps as association lists: the list is the order in which the map is iterated.
mod Laws
mod Defs
mod Loops
mod Order
mod Counting
unfoldable pub use Defs.*
unfoldable pub use Laws.*
unfoldable pub use Loops.*
pub use Order.*
pub use Counting.*
