-- ===== src/Bus.antt =====
-- Memory access with its faults (src/m68k/m68k.c, from `mask_address_24` to `m68k_write_size`).
--
-- A faulting access raises an exception, and an exception writes its frame through these same
-- functions. So each takes the function `exc` that raises an exception; `Exception` closes the
-- knot.
mod Fault
mod Read
mod Write
mod Peek
unfoldable pub use Fault.*
unfoldable pub use Read.*
pub mod Memory
unfoldable pub use Write.*
unfoldable pub use Peek.*
mod Tests
