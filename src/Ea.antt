-- ===== src/Ea.antt =====
-- Effective addresses (src/m68k/m68k.c, from `set_fault_pc` to `m68k_movem_ea_cycles`;
-- `m68k_ea_cycles` and `M68kEa` of src/m68k/m68k_internal.h).
mod Cycles
mod Calc
unfoldable pub use Cycles.*
unfoldable pub use Calc.*
pub mod Register
