-- ===== src/Disasm/Groups.antt =====
-- Extents of the lines of each group of opcodes (src/disasm.c).
use rocket.Base.{
  ℕ, ◌≤◌, refl, not, ◌&&◌, [], ◌++◌, length, length-append, ◌==◌, low_bits, shr, bit_and, test_bit,
  add32, arith,
}
use rocket.Cpu.{size_byte, pure}
use rocket.Decode.{reg_field, mode_field, ea_reg_field, size_field}
use rocket.Disasm.Text.{Text, codes}
use rocket.Disasm.Operand.{size_str}
use rocket.Disasm.Line.{unknown, code_size, d_text}
use rocket.Disasm.Group0.{
  bit_name, bit_names, bit_immediate_line, movep_line, gpr_text, moves_line, ccr_line, sr_line,
  immediate_line, status_line, group_0,
}
use rocket.Disasm.Gives.{
  Gives, pure-Gives, if-Gives, bind-Gives, peek_word-Gives, length-decimal, length-hex_padded,
  length-signed, length-size_str,
}
use rocket.Disasm.Extent.{
  LineFits, line-LineFits, plain_line-Gives, word_line-Gives, operand_line-Gives, ea_line-Gives,
  length-get_or, decode_imm_arith-Gives,
}

length-bit_name : (opcode : ℕ) → length (bit_name opcode) ≤ 7
length-bit_name opcode = omega (arith, length-get_or 4 bit_names (size_field opcode) refl)

bit_immediate_line-Gives : (pc opcode : ℕ) → Gives LineFits (bit_immediate_line pc opcode)
unfolding bit_immediate_line
bit_immediate_line-Gives pc opcode = bind-Gives _ _ (peek_word-Gives (add32 pc 2)) (λ w p.
    operand_line-Gives pc 4 _ _ _ _ _ _ (omega arith, omega arith, refl) (length-bit_name opcode)
      (simp length-append (omega (arith, length-decimal 3 (low_bits w 8)))))

movep_line-Gives : (pc opcode : ℕ) → Gives LineFits (movep_line pc opcode)
unfolding movep_line
movep_line-Gives pc opcode = bind-Gives _ _ (peek_word-Gives (add32 pc 2)) (λ w p.
    let short = length-signed 5 16 w in
    if-Gives _
      (pure-Gives _ (
        line-LineFits 4 _ _ (omega arith, omega arith, refl) (ground arith)
          (simp length-append (omega (arith, short)))))
      (pure-Gives _ (
        line-LineFits 4 _ _ (omega arith, omega arith, refl) (ground arith)
          (simp length-append (omega (arith, short))))))

moves_line-Gives : (pc opcode : ℕ) → Gives LineFits (moves_line pc opcode)
unfolding moves_line
moves_line-Gives pc opcode =
    let name = codes "MOVES" ++ size_str (size_field opcode) in
    let op : length name ≤ 7 = omega (arith, length-size_str (size_field opcode)) in
    bind-Gives _ _ (peek_word-Gives (add32 pc 2)) (λ w p.
      if-Gives (test_bit 11 w)
        (operand_line-Gives pc 4 name (gpr_text w ++ codes ", ") (mode_field opcode)
          (ea_reg_field opcode) (code_size (size_field opcode)) [] (omega arith, omega arith, refl)
          op (omega arith))
        (operand_line-Gives pc 4 name [] (mode_field opcode) (ea_reg_field opcode)
          (code_size (size_field opcode)) (codes ", " ++ gpr_text w)
          (omega arith, omega arith, refl) op (omega arith)))

ccr_line-Gives : (pc : ℕ) (op : Text) → length op ≤ 7 → Gives LineFits (ccr_line pc op)
unfolding ccr_line
ccr_line-Gives pc op short =
    word_line-Gives (add32 pc 2) op _ short
      (λ w. simp length-append (omega (arith, length-hex_padded 2 (low_bits w 8))))

sr_line-Gives : (pc : ℕ) (op : Text) → length op ≤ 7 → Gives LineFits (sr_line pc op)
unfolding sr_line
sr_line-Gives pc op short =
    word_line-Gives (add32 pc 2) op _ short
      (λ w. simp length-append (omega (arith, length-hex_padded 4 w)))

pub unknown-Gives : Gives LineFits (pure unknown)
unknown-Gives = plain_line-Gives _ _ (omega arith) (omega arith)

immediate_line-Gives : (pc opcode : ℕ) → Gives LineFits (immediate_line pc opcode)
unfolding immediate_line
immediate_line-Gives pc opcode =
    if-Gives _ (decode_imm_arith-Gives pc opcode (codes "ORI") (omega arith)) (
      if-Gives _ (decode_imm_arith-Gives pc opcode (codes "ANDI") (omega arith)) (
        if-Gives _ (decode_imm_arith-Gives pc opcode (codes "SUBI") (omega arith)) (
          if-Gives _ (decode_imm_arith-Gives pc opcode (codes "ADDI") (omega arith)) (
            if-Gives _ (decode_imm_arith-Gives pc opcode (codes "EORI") (omega arith)) (
              if-Gives _ (decode_imm_arith-Gives pc opcode (codes "CMPI") (omega arith))
                unknown-Gives)))))

status_line-Gives : (pc opcode : ℕ) → Gives LineFits (status_line pc opcode)
unfolding status_line
status_line-Gives pc opcode = if-Gives _ (ccr_line-Gives pc (codes "ORI") (omega arith)) (
    if-Gives _ (sr_line-Gives pc (codes "ORI") (omega arith)) (
      if-Gives _ (ccr_line-Gives pc (codes "ANDI") (omega arith)) (
        if-Gives _ (sr_line-Gives pc (codes "ANDI") (omega arith)) (
          if-Gives _ (ccr_line-Gives pc (codes "EORI") (omega arith)) (
            if-Gives _ (sr_line-Gives pc (codes "EORI") (omega arith))
              (immediate_line-Gives pc opcode))))))

pub group_0-Gives : (pc opcode : ℕ) → Gives LineFits (group_0 pc opcode)
unfolding group_0
group_0-Gives pc opcode =
    if-Gives (low_bits (shr opcode 8) 4 == 8) (bit_immediate_line-Gives pc opcode) (
      if-Gives (test_bit 8 opcode)
        (if-Gives (mode_field opcode == 1) (movep_line-Gives pc opcode) (
          ea_line-Gives pc opcode (bit_name opcode) (d_text (reg_field opcode) ++ codes ", ")
            size_byte [] (length-bit_name opcode) (omega arith)))
        (if-Gives (bit_and opcode 0xFF00 == 0x0E00 && not (size_field opcode == 3))
          (moves_line-Gives pc opcode) (status_line-Gives pc opcode)))
