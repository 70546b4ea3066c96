-- ===== src/Disasm/Dyadic.antt =====
-- Opcodes that start with 5 to E: quick, dyadic and shift instructions (src/disasm.c).
use rocket.Base.{
  ℕ, ◌+◌, ◌-◌, ◌*◌, ◌&&◌, ◌||◌, List, [], ◌∷◌, ◌++◌, get_or, ◌==◌, leb, if◌then◌else◌, bit_and,
  low_bits, shr, test_bit, add32, sext16,
}
use rocket.Cpu.{size_byte, size_word, size_long, M, pure, ◌>>=◌}
use rocket.Decode.{reg_field, opmode_field, mode_field, ea_reg_field, size_field}
use rocket.Disasm.Text.{Text, codes, hex, s8_text, digit_text}
use rocket.Disasm.Operand.{peek_word, size_str}
use rocket.Disasm.Line.{
  Line, line, ea_line, d_text, a_text, code_size, pair_text, cc_names, decode_std_arith,
}
use Prim.Native.String.{String}

abbrev pub cond_name : ℕ → Text
cond_name opcode = codes (get_or ("T" ∷ "F" ∷ cc_names) (low_bits (shr opcode 8) 4) "")

unfoldable pub dbcc_line : ℕ → ℕ → M Line
dbcc_line pc opcode = do
  disp ← peek_word (add32 pc 2)
  pure (
      line 4 (codes "DB" ++ cond_name opcode)
        (d_text (ea_reg_field opcode) ++ codes ", $" ++ hex 8 (add32 (add32 pc 2) (sext16 disp))))

-- A count of 0 stands for 8.
abbrev pub quick_text : ℕ → Text
quick_text count = digit_text (if count == 0 then 8 else count)

unfoldable pub group_5 : ℕ → ℕ → M Line
group_5 pc opcode =
    if bit_and opcode 0xC0 == 0xC0
    then (if mode_field opcode == 1
        then dbcc_line pc opcode
        else ea_line pc opcode (codes "S" ++ cond_name opcode) [] size_byte [])
    else ea_line pc opcode
        ((if test_bit 8 opcode then codes "SUB" else codes "ADD")
          ++ codes "Q"
          ++ size_str (size_field opcode))
        (codes "#" ++ quick_text (reg_field opcode) ++ codes ", ") (code_size (size_field opcode))
        []

unfoldable pub moveq_line : ℕ → Line
moveq_line opcode =
    line 2 (codes "MOVEQ")
      (codes "#" ++ s8_text (low_bits opcode 8) ++ codes ", " ++ d_text (reg_field opcode))

-- A word operand and a data register: DIVU, DIVS, MULU and MULS.
abbrev pub word_line : ℕ → ℕ → Text → M Line
word_line pc opcode name =
    ea_line pc opcode name [] size_word (codes ", " ++ d_text (reg_field opcode))

unfoldable pub group_8 : ℕ → ℕ → M Line
group_8 pc opcode =
    if opmode_field opcode == 3
    then word_line pc opcode (codes "DIVU.W")
    else if opmode_field opcode == 7
    then word_line pc opcode (codes "DIVS.W")
    else if bit_and opcode 0x1F0 == 0x100
    then pure (line 2 (codes "SBCD") (pair_text opcode))
    else decode_std_arith pc opcode (codes "OR")

-- An operand and an address register: SUBA, CMPA and ADDA.
unfoldable pub address_line : ℕ → ℕ → Text → M Line
address_line pc opcode name =
    if opmode_field opcode == 3
    then ea_line pc opcode (name ++ codes ".W") [] size_word
        (codes ", " ++ a_text (reg_field opcode))
    else ea_line pc opcode (name ++ codes ".L") [] size_long
        (codes ", " ++ a_text (reg_field opcode))

-- Groups 9 and D: SUB and ADD.
unfoldable pub add_group : ℕ → ℕ → Text → M Line
add_group pc opcode name =
    if opmode_field opcode == 3 || opmode_field opcode == 7
    then address_line pc opcode (name ++ codes "A")
    else if bit_and opcode 0x0130 == 0x0100
    then pure (line 2 (name ++ codes "X" ++ size_str (size_field opcode)) (pair_text opcode))
    else decode_std_arith pc opcode name

unfoldable pub cmpm_line : ℕ → Line
cmpm_line opcode = line 2 (codes "CMPM" ++ size_str (opmode_field opcode - 4)) (
    codes "(A"
    ++ digit_text (ea_reg_field opcode)
    ++ codes ")+, (A"
    ++ digit_text (reg_field opcode)
    ++ codes ")+")

unfoldable pub group_b : ℕ → ℕ → M Line
group_b pc opcode =
    if opmode_field opcode == 3 || opmode_field opcode == 7
    then address_line pc opcode (codes "CMPA")
    else if leb 4 (opmode_field opcode) && mode_field opcode == 1
    then pure (cmpm_line opcode)
    else if leb 4 (opmode_field opcode)
    then decode_std_arith pc opcode (codes "EOR")
    else decode_std_arith pc opcode (codes "CMP")

unfoldable pub exg_line : ℕ → Line
exg_line opcode =
    let rx = reg_field opcode in
    let ry = ea_reg_field opcode in
    let exg_mode = low_bits (shr opcode 3) 5 in
    line 2 (codes "EXG") (
      if exg_mode == 0x08
      then d_text rx ++ codes ", " ++ d_text ry
      else if exg_mode == 0x09
      then a_text rx ++ codes ", " ++ a_text ry
      else d_text rx ++ codes ", " ++ a_text ry)

unfoldable pub group_c : ℕ → ℕ → M Line
group_c pc opcode =
    if opmode_field opcode == 3
    then word_line pc opcode (codes "MULU.W")
    else if opmode_field opcode == 7
    then word_line pc opcode (codes "MULS.W")
    else if bit_and opcode 0x1F0 == 0x100
    then pure (line 2 (codes "ABCD") (pair_text opcode))
    else if bit_and opcode 0x0130 == 0x0100
    then pure (exg_line opcode)
    else decode_std_arith pc opcode (codes "AND")

abbrev pub mem_ops : List String
mem_ops = "ASR" ∷ "ASL" ∷ "LSR" ∷ "LSL" ∷ "ROXR" ∷ "ROXL" ∷ "ROR" ∷ "ROL" ∷ []

abbrev pub reg_ops : List String
reg_ops = "AS" ∷ "LS" ∷ "ROX" ∷ "RO" ∷ []

unfoldable pub shift_line : ℕ → Line
shift_line opcode =
    let count = reg_field opcode in
    let target = d_text (ea_reg_field opcode) in
    line 2
      (codes (get_or reg_ops (low_bits (shr opcode 3) 2) "")
        ++ (if test_bit 8 opcode then codes "L" else codes "R")
        ++ size_str (size_field opcode))
      ((if test_bit 5 opcode then d_text count else codes "#" ++ quick_text count)
        ++ codes ", "
        ++ target)

unfoldable pub group_e : ℕ → ℕ → M Line
group_e pc opcode =
    if bit_and opcode 0xC0 == 0xC0
    then ea_line pc opcode
        (codes (get_or mem_ops (low_bits (shr opcode 9) 2 * 2 + low_bits (shr opcode 8) 1) "")
          ++ codes ".W")
        [] size_word []
    else pure (shift_line opcode)
