-- ===== src/Core.antt =====
-- The public operations on a context that are not instructions (src/m68k/m68k.c).
mod Lifecycle
mod Interrupt
mod Timeslice
mod Setters
unfoldable pub use Lifecycle.*
unfoldable pub use Interrupt.*
pub mod Service
pub mod Startup
pub mod Accounting
unfoldable pub use Timeslice.*
mod Tests
unfoldable pub use Setters.*
