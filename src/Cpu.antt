-- ===== src/Cpu.antt =====
-- The CPU context and the effects of the code that works on it (include/m68k.h,
-- src/m68k/m68k_internal.h).
mod State
mod Callbacks
mod Monad
pub use State.*
pub use Callbacks.*
pub use Monad.*
