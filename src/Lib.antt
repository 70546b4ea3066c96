-- ===== src/Lib.antt =====
-- A model of the Rocket 68 emulator core, a Motorola 68000/68010 interpreter in C, and its theorems.
--
-- The program keeps one context, `M68kCpu` (include/m68k.h). A host binds memory to it and may
-- install callbacks; the core executes instructions on it. Every C function on the context is here
-- a function of the monad `M` (Cpu/Monad.antt): it reads the callbacks, changes the context, and
-- returns, or leaves by the `longjmp` with which a faulted instruction is abandoned.
--
-- The parts, with the code that each file follows:
--   * Base: arithmetic of words, bits and signed integers, lists and arrays.
--   * Cpu: the context, the operand sizes and the callbacks (include/m68k.h), the monad.
--   * Bus: the memory accesses, their faults and wait states (src/m68k/m68k.c, `mask_address_24` to
--     `m68k_write_size`). Bus/Memory has the equations of accesses that succeed.
--   * Exception: the status register, the stack and `m68k_exception` (src/m68k/m68k.c). A faulting
--     access raises an exception and an exception writes its frame by accesses, so the functions of
--     Bus take the raising function as an argument and Exception/Process closes the circle on fuel.
--     Three levels are enough: a nested exception is raised only with one more of the flags
--     `in_address_error` and `in_bus_error` set.
--   * Ea: effective addresses and their cycle costs (src/m68k/m68k.c, `m68k_calc_ea` and its kin;
--     src/m68k/m68k_internal.h).
--   * Flags: `update_flags_add` and its kin (src/m68k/m68k.c), `m68k_check_condition`
--     (src/m68k/ops_control.c).
--   * Decode: the fields of an opcode and the pieces that the handlers share.
--   * Arith: the handlers of src/m68k/ops_arith.c, `m68k_exec_add` as `exec_add` and so on.
--   * Control: the handlers of src/m68k/ops_control.c.
--   * Logic, Bits: the handlers of src/m68k/ops_logic.c and src/m68k/ops_bit.c. The loops of the
--     shifts are `shift_rounds`, with one round of each kind in `shift_round`.
--   * Move: the handlers of src/m68k/ops_move.c.
--   * Core: initialisation, reset, accessors, interrupts and timeslices (src/m68k/m68k.c).
--   * Step: the decoder `m68k_step_ex`, with a definition for each line of opcodes, and the loop
--     `m68k_execute` (src/m68k/m68k.c). `setjmp` is a handler of the `longjmp` outcome. The loop
--     has fuel, one unit for each instruction, since a program may run its timeslice for as long as
--     wait states give cycles back; the theorems on it say how much is enough.
--   * State: `m68k_serialize`, `m68k_deserialize` and the context copy (src/m68k/m68k.c). The
--     length of a buffer is enough fuel for its loop, which reads two bytes or more a round.
--   * Loader: the S-record, Intel HEX and binary loaders (src/loader.c), on the bytes of a file. The
--     length of the file is enough fuel for their loops over lines, since every line has a character.
--   * Disasm: the disassembler (src/disasm.c). Text is a list of characters, `snprintf` a cut to the
--     size of the buffer, and a number is printed with a bound on its digits, which a register
--     number, a byte, a word or a long never exceeds. Where the program builds one operand
--     between two texts again and again, `ea_line` is that code.
--
-- Conventions. A word is a native number below its width, with the wrap-around of C written out
-- (`add32`, `u16`, ...). Registers and memory are functions of an index. `int` fields that count
-- cycles are integers without bounds: the code adds and subtracts small constants there. The
-- interrupt level, an `int` as well, is a number from 0 up, of any size. The
-- callbacks are parameters: a callback is any function on the context, and where a theorem needs
-- more it asks for `IsPolite`, that no callback that runs during an access or an exception changes
-- the re-entry flags or the nesting depth. `no_host` installs none. The memory pointer is not null
-- where `memory_size` is positive. The order of two fetches in one C expression is left to right,
-- as the compilers that build the program evaluate it.
--
-- Not modelled: `m68k_context_size`, a `sizeof`; the messages of the loaders; a negative
-- buffer size of the disassembler; benchmarks, tests and the WebAssembly shims.
pub mod Base
pub mod Cpu
pub mod Bus
pub mod Exception
pub mod Ea
pub mod Flags
pub mod Decode
pub mod Arith
pub mod Bits
pub mod Logic
pub mod Move
pub mod Control
pub mod Core
pub mod Step
pub mod State
pub mod Loader
pub mod Disasm
