-- ===== src/Step.antt =====
-- The decoder and the execution loop (src/m68k/m68k.c: `m68k_step_ex`, `m68k_step`,
-- `m68k_execute`). Each line of opcodes has a definition, which runs the handler and gives the base
-- cost, or nothing where the source falls through to the illegal opcodes.
mod Cost
mod Immediate
mod Miscellaneous
mod Dyadic
mod Run
unfoldable pub use Cost.*
unfoldable pub use Immediate.*
unfoldable pub use Miscellaneous.*
unfoldable pub use Dyadic.*
unfoldable pub use Run.*
pub mod Fetch
pub mod Loop
pub mod Idle
pub mod Nops
pub mod Trap
mod Tests
