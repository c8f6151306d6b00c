-- ===== src/Text.antt =====
-- Rust's `str` and `[u8]`: a text is the list of its code points, and a byte string the list of
-- its bytes. The functions are those of the standard library that the program calls.
mod Chars
mod Trim
mod Search
pub mod Split
pub mod Number
unfoldable pub use Chars.*
unfoldable pub use Trim.*
unfoldable pub use Search.*
