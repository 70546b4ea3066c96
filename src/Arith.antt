-- ===== src/Arith.antt =====
-- The arithmetic handlers (src/m68k/ops_arith.c).
mod Add
mod Extended
mod Multiply
mod Compare
mod Bcd
unfoldable pub use Add.*
unfoldable pub use Extended.*
unfoldable pub use Multiply.*
unfoldable pub use Compare.*
unfoldable pub use Bcd.*
pub mod Chain
pub mod Wide
pub mod Timing
pub mod Division
pub mod Register
pub mod Decimal
pub mod Negate
mod Tests
