-- ===== src/Exception.antt =====
-- Exception processing (src/m68k/m68k.c: `m68k_set_sr`, the stack helpers, `m68k_exception`), and
-- the memory access functions that the rest of the program calls.
--
-- `m68k_exception` reaches itself through the faults of its own frame writes. Each nested call is
-- made with one more of the flags `in_address_error` and `in_bus_error` set, and none is made with
-- both set, so three levels are all there are; `exception_levels` is that bound.
mod Process
mod Access
pub mod Guards
pub mod Accesses
pub mod Settles
pub mod Stacks
pub mod FaultWord
pub mod Frame
pub mod Entry
unfoldable pub use Process.*
unfoldable pub use Access.*
mod Tests
