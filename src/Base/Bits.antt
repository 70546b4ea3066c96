-- ===== src/Base/Bits.antt =====
-- Laws of `bit_and`, `bit_or` and `bit_xor` at variables: one binary digit at a time, then masks,
-- disjoint fields, and the value of a single bit.
mod Digits
mod Fields
mod Single
pub use Fields.*
unfoldable pub use Single.*
