-- ===== src/Disasm.antt =====
-- The disassembler (src/disasm.c): `Text` prints, `Operand` has the addressing modes, `Line` the
-- decoders of the C file, `Group0`, `Group4` and `Dyadic` the branches of `m68k_disasm`, which is
-- in `Run`; the other modules have the extents of what they print.
pub mod Text
pub mod Operand
pub mod Line
pub mod Group0
pub mod Group4
pub mod Dyadic
pub mod Run
pub mod Tests
pub mod Gives
pub mod Operands
pub mod Extent
pub mod Decoders
pub mod Groups
pub mod Miscellany
pub mod Quick
pub mod Bounds
pub mod Numbers
