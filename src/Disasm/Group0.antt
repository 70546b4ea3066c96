-- ===== src/Disasm/Group0.antt =====
-- Opcodes that start with 0: bit instructions, MOVEP, MOVES and immediate operands (src/disasm.c).
use rocket.Base.{
  ℕ, not, ◌&&◌, ◌||◌, List, [], ◌∷◌, ◌++◌, get_or, ◌==◌, if◌then◌else◌, bit_and, low_bits, shr,
  test_bit, add32,
}
use rocket.Cpu.{size_byte, M, pure, ◌>>=◌}
use rocket.Decode.{reg_field, opmode_field, mode_field, ea_reg_field, size_field}
use rocket.Disasm.Text.{Text, codes, decimal, hex_padded, s16_text, digit_text}
use rocket.Disasm.Operand.{peek_word, size_str}
use rocket.Disasm.Line.{
  Line, line, unknown, operand_line, ea_line, d_text, a_text, code_size, decode_imm_arith,
}
use Prim.Native.String.{String}

abbrev pub bit_names : List String
bit_names = "BTST" ∷ "BCHG" ∷ "BCLR" ∷ "BSET" ∷ []

abbrev pub bit_name : ℕ → Text
bit_name opcode = codes (get_or bit_names (size_field opcode) "")

unfoldable pub bit_immediate_line : ℕ → ℕ → M Line
bit_immediate_line pc opcode = do
  bit_num ← peek_word (add32 pc 2)
  operand_line pc 4 (bit_name opcode) (codes "#" ++ decimal 3 (low_bits bit_num 8) ++ codes ", ")
      (mode_field opcode) (ea_reg_field opcode) size_byte []

unfoldable pub movep_line : ℕ → ℕ → M Line
movep_line pc opcode = do
  disp ← peek_word (add32 pc 2)
  let opmode = opmode_field opcode
  let memory = s16_text disp ++ codes "(" ++ a_text (ea_reg_field opcode) ++ codes ")"
  let dn = d_text (reg_field opcode)
  if opmode == 4 || opmode == 5
      then pure (
          line 4 (codes "MOVEP" ++ (if opmode == 5 then codes ".L" else codes ".W"))
            (memory ++ codes ", " ++ dn))
      else pure (
          line 4 (codes "MOVEP" ++ (if opmode == 7 then codes ".L" else codes ".W"))
            (dn ++ codes ", " ++ memory))

-- The general register of an extension word: `%c%d`.
abbrev pub gpr_text : ℕ → Text
gpr_text ext = (if test_bit 15 ext then b'A' else b'D') ∷ digit_text (low_bits (shr ext 12) 3)

unfoldable pub moves_line : ℕ → ℕ → M Line
moves_line pc opcode = do
  let size_code = size_field opcode
  let op = codes "MOVES" ++ size_str size_code
  mv_ext ← peek_word (add32 pc 2)
  let gpr = gpr_text mv_ext
  if test_bit 11 mv_ext
      then operand_line pc 4 op (gpr ++ codes ", ") (mode_field opcode) (ea_reg_field opcode)
          (code_size size_code) []
      else operand_line pc 4 op [] (mode_field opcode) (ea_reg_field opcode) (code_size size_code)
          (codes ", " ++ gpr)

-- An immediate operand for the CCR or the SR.
unfoldable pub ccr_line : ℕ → Text → M Line
ccr_line pc op = do
  value ← peek_word (add32 pc 2)
  pure (line 4 op (codes "#$" ++ hex_padded 2 (low_bits value 8) ++ codes ", CCR"))

unfoldable pub sr_line : ℕ → Text → M Line
sr_line pc op = do
  value ← peek_word (add32 pc 2)
  pure (line 4 op (codes "#$" ++ hex_padded 4 value ++ codes ", SR"))

-- `switch (top4)`.
unfoldable pub immediate_line : ℕ → ℕ → M Line
immediate_line pc opcode =
    let top4 = low_bits (shr opcode 8) 4 in
    if top4 == 0
    then decode_imm_arith pc opcode (codes "ORI")
    else if top4 == 2
    then decode_imm_arith pc opcode (codes "ANDI")
    else if top4 == 4
    then decode_imm_arith pc opcode (codes "SUBI")
    else if top4 == 6
    then decode_imm_arith pc opcode (codes "ADDI")
    else if top4 == 10
    then decode_imm_arith pc opcode (codes "EORI")
    else if top4 == 12
    then decode_imm_arith pc opcode (codes "CMPI")
    else pure unknown

unfoldable pub status_line : ℕ → ℕ → M Line
status_line pc opcode =
    if opcode == 0x003C
    then ccr_line pc (codes "ORI")
    else if opcode == 0x007C
    then sr_line pc (codes "ORI")
    else if opcode == 0x023C
    then ccr_line pc (codes "ANDI")
    else if opcode == 0x027C
    then sr_line pc (codes "ANDI")
    else if opcode == 0x0A3C
    then ccr_line pc (codes "EORI")
    else if opcode == 0x0A7C
    then sr_line pc (codes "EORI")
    else immediate_line pc opcode

unfoldable pub group_0 : ℕ → ℕ → M Line
group_0 pc opcode =
    if low_bits (shr opcode 8) 4 == 8
    then bit_immediate_line pc opcode
    else if test_bit 8 opcode
    then (if mode_field opcode == 1
        then movep_line pc opcode
        else ea_line pc opcode (bit_name opcode) (d_text (reg_field opcode) ++ codes ", ") size_byte
            [])
    else if bit_and opcode 0xFF00 == 0x0E00 && not (size_field opcode == 3)
    then moves_line pc opcode
    else status_line pc opcode
