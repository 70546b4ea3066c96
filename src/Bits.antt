-- ===== src/Bits.antt =====
-- The bit instructions (src/m68k/ops_bit.c).
mod Handlers
pub mod Single
unfoldable pub use Handlers.*
mod Tests
