-- ===== src/MapIndex.antt =====
-- crates/reveille-core/src/mapindex.rs: an index of the maps in the game directories, in the order
-- in which the engine looks them up.
mod Key
mod Scan
mod Chain
pub mod Names
pub mod Found
pub mod Lookup
pub mod Damaged
unfoldable pub use Key.*
unfoldable pub use Scan.*
unfoldable pub use Chain.*
