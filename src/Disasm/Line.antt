-- ===== src/Disasm/Line.antt =====
-- Lines with operands, and the `decode_` functions (src/disasm.c).
use rocket.Base.{
  ℕ, ◌+◌, Bool, true, false, List, [], ◌∷◌, ◌++◌, get_or, ◌==◌, if◌then◌else◌, low_bits, shr,
  test_bit, add32, sext8, sext16,
}
use rocket.Cpu.{M68kSize, size_byte, size_word, size_long, M, pure, ◌>>=◌}
use rocket.Decode.{reg_field, opmode_field, mode_field, ea_reg_field, size_field}
use rocket.Disasm.Text.{Text, codes, clip, hex, digit_text}
use rocket.Disasm.Operand.{peek_word, size_str, disasm_ea}
use Prim.Native.String.{String}

-- What a decoder leaves: the length of the instruction, and the buffers `op` and `args`.
pub record Line : Type 0 where
  pub len : ℕ
  pub op : Text
  pub args : Text

-- `snprintf(op, DISASM_OP_SIZE, ...)` and `snprintf(args, DISASM_ARGS_SIZE, ...)`.
unfoldable pub line : ℕ → Text → Text → Line
line len op args = record { len = len; op = clip 32 op; args = clip 64 args }

-- The initial values.
abbrev pub unknown : Line
unknown = line 2 (codes "???") []

-- One operand, which the instruction's first `len` bytes come before, between two texts.
unfoldable pub operand_line : ℕ → ℕ → Text → Text → ℕ → ℕ → M68kSize → Text → M Line
operand_line pc len op before mode reg size after = do
  ea ← disasm_ea (add32 pc len) mode reg size
  pure (line (len + ea.bytes) op (before ++ ea.text ++ after))

-- The operand of the opcode's own mode and register.
unfoldable pub ea_line : ℕ → ℕ → Text → Text → M68kSize → Text → M Line
ea_line pc opcode op before size after =
    operand_line pc 2 op before (mode_field opcode) (ea_reg_field opcode) size after

abbrev pub d_text : ℕ → Text
d_text reg = codes "D" ++ digit_text reg

abbrev pub a_text : ℕ → Text
a_text reg = codes "A" ++ digit_text reg

-- `size_code == 0 ? SIZE_BYTE : (size_code == 1 ? SIZE_WORD : SIZE_LONG)`.
abbrev pub code_size : ℕ → M68kSize
code_size size_code =
    if size_code == 0 then size_byte else if size_code == 1 then size_word else size_long

-- `D%d, D%d` or `-(A%d), -(A%d)`, the source first.
unfoldable pub pair_text : ℕ → Text
pair_text opcode =
    let rx = digit_text (reg_field opcode) in
    let ry = digit_text (ea_reg_field opcode) in
    if test_bit 3 opcode
    then codes "-(A" ++ ry ++ codes "), -(A" ++ rx ++ codes ")"
    else codes "D" ++ ry ++ codes ", D" ++ rx

-- Two operands, the second after the first one's extension words.
unfoldable pub two_operands : ℕ → Text → ℕ → ℕ → ℕ → ℕ → M68kSize → M Line
two_operands pc op mode reg mode2 reg2 size = do
  first ← disasm_ea (add32 pc 2) mode reg size
  second ← disasm_ea (add32 pc (2 + first.bytes)) mode2 reg2 size
  pure (line (2 + first.bytes + second.bytes) op (first.text ++ codes ", " ++ second.text))

unfoldable pub decode_move : ℕ → ℕ → M Line
decode_move pc opcode =
    let size_code = low_bits (shr opcode 12) 2 in
    let go : M68kSize → Text → M Line = λ size sz_str.
      two_operands pc (codes "MOVE" ++ sz_str) (mode_field opcode) (ea_reg_field opcode)
        (opmode_field opcode) (reg_field opcode) size in
    if size_code == 1
    then go size_byte (codes ".B")
    else if size_code == 3
    then go size_word (codes ".W")
    else if size_code == 2
    then go size_long (codes ".L")
    else pure (record { len = 0; op = codes "???"; args = [] })

abbrev pub cc_names : List String
cc_names =
    "HI" ∷ "LS" ∷ "CC" ∷ "CS" ∷ "NE" ∷ "EQ" ∷ "VC" ∷ "VS" ∷ "PL" ∷ "MI" ∷ "GE" ∷ "LT" ∷ "GT" ∷ "LE"
    ∷ []

unfoldable pub decode_branch : ℕ → ℕ → M Line
decode_branch pc opcode =
    let cond = low_bits (shr opcode 8) 4 in
    let d8 = low_bits opcode 8 in
    let op =
      (if cond == 1
        then codes "BSR"
        else if cond == 0
        then codes "BRA"
        else codes "B" ++ codes (get_or ("RA" ∷ "SR" ∷ cc_names) cond "")) in
    if d8 == 0
    then (do
      d16 ← peek_word (add32 pc 2)
      pure (line 4 op (b'$' ∷ hex 8 (add32 (add32 pc 2) (sext16 d16)))))
    else pure (line 2 op (b'$' ∷ hex 8 (add32 (add32 pc 2) (sext8 d8))))

unfoldable pub std_arith_line : ℕ → ℕ → Text → M68kSize → Text → Bool → M Line
std_arith_line pc opcode name size sz dn_dest =
    if dn_dest
    then ea_line pc opcode (name ++ sz) [] size (codes ", " ++ d_text (reg_field opcode))
    else ea_line pc opcode (name ++ sz) (d_text (reg_field opcode) ++ codes ", ") size []

unfoldable pub decode_std_arith : ℕ → ℕ → Text → M Line
decode_std_arith pc opcode name_base =
    let opmode = opmode_field opcode in
    if opmode == 0
    then std_arith_line pc opcode name_base size_byte (codes ".B") true
    else if opmode == 1
    then std_arith_line pc opcode name_base size_word (codes ".W") true
    else if opmode == 2
    then std_arith_line pc opcode name_base size_long (codes ".L") true
    else if opmode == 4
    then std_arith_line pc opcode name_base size_byte (codes ".B") false
    else if opmode == 5
    then std_arith_line pc opcode name_base size_word (codes ".W") false
    else if opmode == 6
    then std_arith_line pc opcode name_base size_long (codes ".L") false
    else pure (record { len = 0; op = codes "???"; args = [] })

unfoldable pub decode_imm_arith : ℕ → ℕ → Text → M Line
decode_imm_arith pc opcode name =
    let size_code = size_field opcode in
    two_operands pc (name ++ size_str size_code) 7 4 (mode_field opcode) (ea_reg_field opcode)
      (code_size size_code)
