-- ===== src/Move.antt =====
-- The move instructions (src/m68k/ops_move.c), without MOVE, MOVEM, MOVEP and MOVES.
mod Registers
mod Status
mod Data
mod Multiple
mod Peripheral
pub mod Exchange
pub mod Link
pub mod Transfer
pub mod Movem
mod Tests
unfoldable pub use Registers.*
unfoldable pub use Status.*
unfoldable pub use Data.*
unfoldable pub use Multiple.*
unfoldable pub use Peripheral.*
