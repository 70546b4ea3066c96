-- ===== src/Loader.antt =====
-- The program loaders (src/loader.c). A file is the list of its bytes, `none` where it cannot be
-- opened; the messages on the standard streams are left out.
mod Text
mod Binary
mod Srec
mod Ihex
unfoldable pub use Text.*
unfoldable pub use Binary.*
unfoldable pub use Srec.*
unfoldable pub use Ihex.*
pub mod Copy
pub mod Lines
pub mod Digits
pub mod Buffer
pub mod Printed
pub mod Returns
mod Tests
