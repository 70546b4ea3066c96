-- ===== src/Disasm/Run.antt =====
-- `m68k_disasm` (src/disasm.c).
use rocket.Base.{ℕ, not, ◌&&◌, Option, none, some, ◌++◌, ◌==◌, if◌then◌else◌, bit_and}
use rocket.Cpu.{M, pure, ◌>>=◌}
use rocket.Disasm.Text.{Text, codes, clip, hex_padded, left_aligned}
use rocket.Disasm.Operand.{peek_word}
use rocket.Disasm.Line.{Line, unknown, decode_move, decode_branch}
use rocket.Disasm.Group0.{group_0}
use rocket.Disasm.Group4.{group_4}
use rocket.Disasm.Dyadic.{group_5, moveq_line, group_8, add_group, group_b, group_c, group_e}

-- The chain of tests on the first four bits.
unfoldable pub disasm_line : ℕ → ℕ → M Line
disasm_line pc opcode =
    let top = bit_and opcode 0xF000 in
    if top == 0x0000
    then group_0 pc opcode
    else if bit_and opcode 0xC000 == 0 && not (top == 0)
    then decode_move pc opcode
    else if top == 0x4000
    then group_4 pc opcode
    else if top == 0x5000
    then group_5 pc opcode
    else if top == 0x6000
    then decode_branch pc opcode
    else if top == 0x7000
    then pure (moveq_line opcode)
    else if top == 0x8000
    then group_8 pc opcode
    else if top == 0x9000
    then add_group pc opcode (codes "SUB")
    else if top == 0xB000
    then group_b pc opcode
    else if top == 0xC000
    then group_c pc opcode
    else if top == 0xD000
    then add_group pc opcode (codes "ADD")
    else if top == 0xE000
    then group_e pc opcode
    else pure unknown

-- `"%04X  %-8s %s"`.
unfoldable pub listing : ℕ → Line → Text
listing opcode l = hex_padded 4 opcode ++ codes "  " ++ left_aligned 8 l.op ++ codes " " ++ l.args

-- The length that is returned, and what the buffer holds: with a size of 0 it is left alone.
unfoldable pub m68k_disasm : ℕ → ℕ → M (ℕ × Option Text)
m68k_disasm pc buf_size = do
  opcode ← peek_word pc
  l ← disasm_line pc opcode
  pure (l.len, if buf_size == 0 then none else some (clip buf_size (listing opcode l)))
