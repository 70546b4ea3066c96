-- ===== src/State.antt =====
-- Save states and raw contexts (src/m68k/m68k.c: `m68k_serialize`, `m68k_deserialize`,
-- `m68k_get_context`, `m68k_set_context`). The bytes of a buffer are a list of numbers below 256.
mod Bytes
mod Save
mod Restore
mod Context
unfoldable pub use Bytes.*
unfoldable pub use Save.*
unfoldable pub use Restore.*
unfoldable pub use Context.*
pub mod Fields
pub mod Accept
pub mod RoundTrip
mod Tests
