-- ===== src/Disasm/Group4.antt =====
-- Opcodes that start with 4: the miscellaneous instructions (src/disasm.c).
use rocket.Base.{
  ℕ, Bool, not, ◌&&◌, ◌||◌, [], ◌++◌, ◌==◌, ltb, leb, if◌then◌else◌, bit_and, low_bits, test_bit,
  add32,
}
use rocket.Cpu.{size_byte, size_word, size_long, M, pure, ◌>>=◌}
use rocket.Decode.{reg_field, mode_field, ea_reg_field, size_field}
use rocket.Disasm.Text.{Text, codes, decimal, hex_padded, s16_text, digit_text}
use rocket.Disasm.Operand.{peek_word, size_str}
use rocket.Disasm.Line.{Line, line, unknown, operand_line, ea_line, d_text, a_text, code_size}
use rocket.Disasm.Group0.{gpr_text}

unfoldable pub stop_line : ℕ → M Line
stop_line pc = do
  value ← peek_word (add32 pc 2)
  pure (line 4 (codes "STOP") (codes "#$" ++ hex_padded 4 value))

unfoldable pub rtd_line : ℕ → M Line
rtd_line pc = do
  rtd_disp ← peek_word (add32 pc 2)
  pure (line 4 (codes "RTD") (codes "#" ++ s16_text rtd_disp))

unfoldable pub control_name : ℕ → Text
control_name number =
    if number == 0x000
    then codes "SFC"
    else if number == 0x001
    then codes "DFC"
    else if number == 0x800
    then codes "USP"
    else if number == 0x801
    then codes "VBR"
    else codes "???"

unfoldable pub movec_line : ℕ → ℕ → M Line
movec_line pc opcode = do
  mc_ext ← peek_word (add32 pc 2)
  let gpr = gpr_text mc_ext
  let ctrl = control_name (low_bits mc_ext 12)
  pure (
      line 4 (codes "MOVEC")
        (if test_bit 0 opcode then gpr ++ codes ", " ++ ctrl else ctrl ++ codes ", " ++ gpr))

unfoldable pub link_line : ℕ → ℕ → M Line
link_line pc opcode = do
  disp ← peek_word (add32 pc 2)
  pure (line 4 (codes "LINK") (a_text (ea_reg_field opcode) ++ codes ", #" ++ s16_text disp))

unfoldable pub usp_line : ℕ → Line
usp_line opcode =
    let reg = a_text (ea_reg_field opcode) in
    line 2 (codes "MOVE") (if test_bit 3 opcode then codes "USP, " ++ reg else reg ++ codes ", USP")

-- SWAP or PEA.
unfoldable pub swap_line : ℕ → ℕ → M Line
swap_line pc opcode =
    if mode_field opcode == 0
    then pure (line 2 (codes "SWAP") (d_text (ea_reg_field opcode)))
    else ea_line pc opcode (codes "PEA") [] size_long []

-- EXT or MOVEM.
unfoldable pub movem_line : ℕ → ℕ → M Line
movem_line pc opcode =
    let long = test_bit 6 opcode in
    let suffix = (if long then codes ".L" else codes ".W") in
    if mode_field opcode == 0
    then pure (line 2 (codes "EXT" ++ suffix) (d_text (ea_reg_field opcode)))
    else operand_line pc 4 (codes "MOVEM" ++ suffix) [] (mode_field opcode) (ea_reg_field opcode)
        (if long then size_long else size_word) []

unfoldable pub is_lea : ℕ → Bool
is_lea opcode =
    bit_and opcode 0xF1C0 == 0x41C0
    && (mode_field opcode == 2
        || leb 5 (mode_field opcode) && not (mode_field opcode == 7 && ltb 3 (ea_reg_field opcode)))

-- TST, NEGX, CLR, NEG or NOT.
unfoldable pub unary_line : ℕ → ℕ → Text → M Line
unary_line pc opcode name =
    let size_code = size_field opcode in
    ea_line pc opcode (name ++ size_str size_code) [] (code_size size_code) []

unfoldable pub unary_lines : ℕ → ℕ → M Line
unary_lines pc opcode =
    if bit_and opcode 0xFF00 == 0x4A00
    then unary_line pc opcode (codes "TST")
    else if bit_and opcode 0xFF00 == 0x4000
    then unary_line pc opcode (codes "NEGX")
    else if bit_and opcode 0xFFC0 == 0x42C0
    then ea_line pc opcode (codes "MOVE") (codes "CCR, ") size_word []
    else if bit_and opcode 0xFF00 == 0x4200
    then unary_line pc opcode (codes "CLR")
    else if bit_and opcode 0xFF00 == 0x4400
    then unary_line pc opcode (codes "NEG")
    else if bit_and opcode 0xFF00 == 0x4600
    then unary_line pc opcode (codes "NOT")
    else pure unknown

unfoldable pub pattern_lines : ℕ → ℕ → M Line
pattern_lines pc opcode =
    if bit_and opcode 0xFFC0 == 0x44C0
    then ea_line pc opcode (codes "MOVE") [] size_word (codes ", CCR")
    else if bit_and opcode 0xFFC0 == 0x46C0
    then ea_line pc opcode (codes "MOVE") [] size_word (codes ", SR")
    else if bit_and opcode 0xFFC0 == 0x4AC0
    then ea_line pc opcode (codes "TAS") [] size_byte []
    else if bit_and opcode 0xFFC0 == 0x4800
    then ea_line pc opcode (codes "NBCD") [] size_byte []
    else if bit_and opcode 0xFFF8 == 0x4848
    then pure (line 2 (codes "BKPT") (codes "#" ++ digit_text (ea_reg_field opcode)))
    else if bit_and opcode 0xFFC0 == 0x4840
    then swap_line pc opcode
    else if bit_and opcode 0xFB80 == 0x4880
    then movem_line pc opcode
    else if bit_and opcode 0xF1C0 == 0x4180
    then ea_line pc opcode (codes "CHK") [] size_word (codes ", " ++ d_text (reg_field opcode))
    else if is_lea opcode
    then ea_line pc opcode (codes "LEA") [] size_long (codes ", " ++ a_text (reg_field opcode))
    else unary_lines pc opcode

unfoldable pub jump_lines : ℕ → ℕ → M Line
jump_lines pc opcode =
    if bit_and opcode 0xFFF0 == 0x4E40
    then pure (line 2 (codes "TRAP") (codes "#" ++ decimal 2 (low_bits opcode 4)))
    else if bit_and opcode 0xFFF8 == 0x4E50
    then link_line pc opcode
    else if bit_and opcode 0xFFF8 == 0x4E58
    then pure (line 2 (codes "UNLK") (a_text (ea_reg_field opcode)))
    else if bit_and opcode 0xFFF0 == 0x4E60
    then pure (usp_line opcode)
    else if bit_and opcode 0xFFC0 == 0x4E80
    then ea_line pc opcode (codes "JSR") [] size_long []
    else if bit_and opcode 0xFFC0 == 0x4EC0
    then ea_line pc opcode (codes "JMP") [] size_long []
    else if bit_and opcode 0xFFC0 == 0x40C0
    then ea_line pc opcode (codes "MOVE") (codes "SR, ") size_word []
    else pattern_lines pc opcode

unfoldable pub group_4 : ℕ → ℕ → M Line
group_4 pc opcode =
    if opcode == 0x4E70
    then pure (line 2 (codes "RESET") [])
    else if opcode == 0x4E71
    then pure (line 2 (codes "NOP") [])
    else if opcode == 0x4E72
    then stop_line pc
    else if opcode == 0x4E73
    then pure (line 2 (codes "RTE") [])
    else if opcode == 0x4E75
    then pure (line 2 (codes "RTS") [])
    else if opcode == 0x4E76
    then pure (line 2 (codes "TRAPV") [])
    else if opcode == 0x4E77
    then pure (line 2 (codes "RTR") [])
    else if opcode == 0x4E74
    then rtd_line pc
    else if opcode == 0x4E7A || opcode == 0x4E7B
    then movec_line pc opcode
    else jump_lines pc opcode
