-- ===== src/Control.antt =====
-- Control flow and privileged instructions (src/m68k/ops_control.c).
mod Branch
mod Return
mod Privileged
unfoldable pub use Branch.*
unfoldable pub use Return.*
unfoldable pub use Privileged.*
pub mod Resume
mod Tests
