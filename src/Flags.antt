-- ===== src/Flags.antt =====
-- Condition codes (src/m68k/m68k.c: `update_flags_*`; src/m68k/ops_control.c:
-- `m68k_check_condition`). Each update is a function on SR; the handlers apply it to the context.
mod Update
pub mod Bits
pub mod Carry
pub mod Compare
pub mod Conditions
unfoldable pub use Update.*
mod Tests
