-- ===== src/Logic.antt =====
-- The logic instructions (src/m68k/ops_logic.c).
mod Binary
mod Unary
mod Immediate
mod Shift
pub mod Clear
pub mod Rotate
unfoldable pub use Binary.*
unfoldable pub use Unary.*
unfoldable pub use Shift.*
unfoldable pub use Immediate.*
mod Tests
