-- ===== src/Disasm/Miscellany.antt =====
-- Extents of the lines of the opcodes that start with 4 (src/disasm.c).
use rocket.Base.{
  ℕ, ◌≤◌, ◌≡◌, refl, Bool-cases, inl, inr, ◌||◌, [], ◌++◌, length, length-append, ◌==◌,
  if◌then◌else◌, low_bits, bit_and, test_bit, add32, arith,
}
use rocket.Cpu.{size_byte, size_word, size_long}
use rocket.Decode.{reg_field, mode_field, ea_reg_field, size_field}
use rocket.Disasm.Text.{Text, codes, decimal, hex_padded, s16_text, digit_text}
use rocket.Disasm.Operand.{size_str}
use rocket.Disasm.Line.{code_size, d_text, a_text}
use rocket.Disasm.Group0.{gpr_text}
use rocket.Disasm.Group4.{
  stop_line, rtd_line, control_name, movec_line, link_line, usp_line, swap_line, movem_line, is_lea,
  unary_line, unary_lines, pattern_lines, jump_lines, group_4,
}
use rocket.Disasm.Gives.{
  Gives, pure-Gives, if-Gives, length-decimal, length-hex_padded, length-signed, length-size_str,
}
use rocket.Disasm.Extent.{
  LineFits, line-LineFits, plain_line-Gives, word_line-Gives, operand_line-Gives, ea_line-Gives,
}
use rocket.Disasm.Groups.{unknown-Gives}

stop_line-Gives : (pc : ℕ) → Gives LineFits (stop_line pc)
unfolding stop_line
stop_line-Gives pc =
    word_line-Gives (add32 pc 2) (codes "STOP") (λ w. codes "#$" ++ hex_padded 4 w) (omega arith)
      (λ w. omega (arith, length-hex_padded 4 w))

rtd_line-Gives : (pc : ℕ) → Gives LineFits (rtd_line pc)
unfolding rtd_line
rtd_line-Gives pc =
    word_line-Gives (add32 pc 2) (codes "RTD") (λ w. codes "#" ++ s16_text w) (omega arith)
      (λ w. omega (arith, length-signed 5 16 w))

length-control_name : (number : ℕ) → length (control_name number) ≡ 3
unfolding control_name
length-control_name number = ground arith

length-movec :
    (w opcode : ℕ)
    → length (
        if test_bit 0 opcode
        then gpr_text w ++ codes ", " ++ control_name (low_bits w 12)
        else control_name (low_bits w 12) ++ codes ", " ++ gpr_text w)
      ≤ 28
length-movec w opcode =
    let name = length-control_name (low_bits w 12) in
    elim (Bool-cases (test_bit 0 opcode)) [
      | inl to ↦ rw to (omega (arith, name))
      | inr from ↦ rw from (simp length-append (omega (arith, name)))
    ]

movec_line-Gives : (pc opcode : ℕ) → Gives LineFits (movec_line pc opcode)
unfolding movec_line
movec_line-Gives pc opcode =
    word_line-Gives (add32 pc 2) (codes "MOVEC") _ (omega arith) (λ w. length-movec w opcode)

link_line-Gives : (pc opcode : ℕ) → Gives LineFits (link_line pc opcode)
unfolding link_line
link_line-Gives pc opcode =
    word_line-Gives (add32 pc 2) (codes "LINK")
      (λ w. a_text (ea_reg_field opcode) ++ codes ", #" ++ s16_text w) (omega arith)
      (λ w. omega (arith, length-signed 5 16 w))

usp_line-LineFits : (opcode : ℕ) → LineFits (usp_line opcode)
unfolding usp_line
usp_line-LineFits opcode =
    line-LineFits 2 (codes "MOVE") _ (omega arith, omega arith, refl) (omega arith) (ground arith)

swap_line-Gives : (pc opcode : ℕ) → Gives LineFits (swap_line pc opcode)
unfolding swap_line
swap_line-Gives pc opcode =
    if-Gives (mode_field opcode == 0)
      (plain_line-Gives (codes "SWAP") (d_text (ea_reg_field opcode)) (omega arith) (omega arith))
      (ea_line-Gives pc opcode (codes "PEA") [] size_long [] (omega arith) (omega arith))

movem_line-Gives : (pc opcode : ℕ) → Gives LineFits (movem_line pc opcode)
unfolding movem_line
movem_line-Gives pc opcode =
    let suffix : Text = (if test_bit 6 opcode then codes ".L" else codes ".W") in
    if-Gives (mode_field opcode == 0)
      (plain_line-Gives (codes "EXT" ++ suffix) (d_text (ea_reg_field opcode)) (ground arith)
        (omega arith))
      (operand_line-Gives pc 4 (codes "MOVEM" ++ suffix) [] (mode_field opcode)
        (ea_reg_field opcode) (if test_bit 6 opcode then size_long else size_word) []
        (omega arith, omega arith, refl) (ground arith) (omega arith))

unary_line-Gives :
    (pc opcode : ℕ) (name : Text) → length name ≤ 5 → Gives LineFits (unary_line pc opcode name)
unfolding unary_line
unary_line-Gives pc opcode name short =
    ea_line-Gives pc opcode (name ++ size_str (size_field opcode)) []
      (code_size (size_field opcode)) []
      (simp length-append (omega (arith, short, length-size_str (size_field opcode)))) (omega arith)

unary_lines-Gives : (pc opcode : ℕ) → Gives LineFits (unary_lines pc opcode)
unfolding unary_lines
unary_lines-Gives pc opcode =
    if-Gives (bit_and opcode 0xFF00 == 0x4A00)
      (unary_line-Gives pc opcode (codes "TST") (omega arith))
      (if-Gives (bit_and opcode 0xFF00 == 0x4000)
        (unary_line-Gives pc opcode (codes "NEGX") (omega arith))
        (if-Gives (bit_and opcode 0xFFC0 == 0x42C0)
          (ea_line-Gives pc opcode (codes "MOVE") (codes "CCR, ") size_word [] (omega arith)
            (omega arith))
          (if-Gives (bit_and opcode 0xFF00 == 0x4200)
            (unary_line-Gives pc opcode (codes "CLR") (omega arith))
            (if-Gives (bit_and opcode 0xFF00 == 0x4400)
              (unary_line-Gives pc opcode (codes "NEG") (omega arith))
              (if-Gives (bit_and opcode 0xFF00 == 0x4600)
                (unary_line-Gives pc opcode (codes "NOT") (omega arith)) unknown-Gives)))))

pattern_lines-Gives : (pc opcode : ℕ) → Gives LineFits (pattern_lines pc opcode)
unfolding pattern_lines
pattern_lines-Gives pc opcode =
    if-Gives (bit_and opcode 0xFFC0 == 0x44C0)
      (ea_line-Gives pc opcode (codes "MOVE") [] size_word (codes ", CCR") (omega arith)
        (omega arith))
      (if-Gives (bit_and opcode 0xFFC0 == 0x46C0)
        (ea_line-Gives pc opcode (codes "MOVE") [] size_word (codes ", SR") (omega arith)
          (omega arith))
        (if-Gives (bit_and opcode 0xFFC0 == 0x4AC0)
          (ea_line-Gives pc opcode (codes "TAS") [] size_byte [] (omega arith) (omega arith))
          (if-Gives (bit_and opcode 0xFFC0 == 0x4800)
            (ea_line-Gives pc opcode (codes "NBCD") [] size_byte [] (omega arith) (omega arith))
            (if-Gives (bit_and opcode 0xFFF8 == 0x4848)
              (plain_line-Gives (codes "BKPT") (codes "#" ++ digit_text (ea_reg_field opcode))
                (omega arith) (omega arith))
              (if-Gives (bit_and opcode 0xFFC0 == 0x4840) (swap_line-Gives pc opcode) (
                if-Gives (bit_and opcode 0xFB80 == 0x4880) (movem_line-Gives pc opcode) (
                  if-Gives (bit_and opcode 0xF1C0 == 0x4180)
                    (ea_line-Gives pc opcode (codes "CHK") [] size_word
                      (codes ", " ++ d_text (reg_field opcode)) (omega arith) (omega arith))
                    (if-Gives (is_lea opcode)
                      (ea_line-Gives pc opcode (codes "LEA") [] size_long
                        (codes ", " ++ a_text (reg_field opcode)) (omega arith) (omega arith))
                      (unary_lines-Gives pc opcode)))))))))

jump_lines-Gives : (pc opcode : ℕ) → Gives LineFits (jump_lines pc opcode)
unfolding jump_lines
jump_lines-Gives pc opcode =
    if-Gives (bit_and opcode 0xFFF0 == 0x4E40)
      (plain_line-Gives (codes "TRAP") (codes "#" ++ decimal 2 (low_bits opcode 4)) (omega arith)
        (omega (arith, length-decimal 2 (low_bits opcode 4))))
      (if-Gives (bit_and opcode 0xFFF8 == 0x4E50) (link_line-Gives pc opcode) (
        if-Gives (bit_and opcode 0xFFF8 == 0x4E58)
          (plain_line-Gives (codes "UNLK") (a_text (ea_reg_field opcode)) (omega arith)
            (omega arith))
          (if-Gives (bit_and opcode 0xFFF0 == 0x4E60)
            (pure-Gives (usp_line opcode) (usp_line-LineFits opcode))
            (if-Gives (bit_and opcode 0xFFC0 == 0x4E80)
              (ea_line-Gives pc opcode (codes "JSR") [] size_long [] (omega arith) (omega arith))
              (if-Gives (bit_and opcode 0xFFC0 == 0x4EC0)
                (ea_line-Gives pc opcode (codes "JMP") [] size_long [] (omega arith) (omega arith))
                (if-Gives (bit_and opcode 0xFFC0 == 0x40C0)
                  (ea_line-Gives pc opcode (codes "MOVE") (codes "SR, ") size_word [] (omega arith)
                    (omega arith))
                  (pattern_lines-Gives pc opcode)))))))

pub group_4-Gives : (pc opcode : ℕ) → Gives LineFits (group_4 pc opcode)
unfolding group_4
group_4-Gives pc opcode =
    if-Gives (opcode == 0x4E70) (plain_line-Gives (codes "RESET") [] (omega arith) (omega arith)) (
      if-Gives (opcode == 0x4E71) (plain_line-Gives (codes "NOP") [] (omega arith) (omega arith)) (
        if-Gives (opcode == 0x4E72) (stop_line-Gives pc) (
          if-Gives (opcode == 0x4E73)
            (plain_line-Gives (codes "RTE") [] (omega arith) (omega arith))
            (if-Gives (opcode == 0x4E75)
              (plain_line-Gives (codes "RTS") [] (omega arith) (omega arith))
              (if-Gives (opcode == 0x4E76)
                (plain_line-Gives (codes "TRAPV") [] (omega arith) (omega arith))
                (if-Gives (opcode == 0x4E77)
                  (plain_line-Gives (codes "RTR") [] (omega arith) (omega arith))
                  (if-Gives (opcode == 0x4E74) (rtd_line-Gives pc) (
                    if-Gives (opcode == 0x4E7A || opcode == 0x4E7B) (movec_line-Gives pc opcode)
                      (jump_lines-Gives pc opcode)))))))))
