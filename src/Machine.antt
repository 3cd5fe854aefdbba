-- ===== src/Machine.antt =====
-- The machine that the C++ of libSRPP runs on: a little-endian one, with 32-bit `int`.
mod Words
mod Memory
mod Patches
unfoldable pub use Words.*
unfoldable pub use Memory.*
pub use Patches.*
