-- ===== src/Disasm/Operands.antt =====
-- Extents of operands (src/disasm.c: `disasm_ea`).
use rocket.Base.{ℕ, ◌∷◌, ◌++◌, length-append, ◌==◌, if◌then◌else◌, low_bits, add32, sext16, arith}
use rocket.Cpu.{M68kSize, is_byte, is_long}
use rocket.Disasm.Text.{codes, hex, hex_padded, s8_text}
use rocket.Disasm.Operand.{index_text, disasm_immediate, disasm_ea_7, disasm_ea}
use rocket.Disasm.Gives.{
  Gives, if-Gives, length-hex, length-hex_padded, length-signed, length-index_text, EaFits,
  word_ea-Gives, long_ea-Gives, plain_ea-Gives,
}

disasm_immediate-Gives : (pc : ℕ) (size : M68kSize) → Gives EaFits (disasm_immediate pc size)
unfolding disasm_immediate
disasm_immediate-Gives pc size =
    if-Gives (is_long size)
      (long_ea-Gives pc (λ w. codes "#$" ++ hex 8 w) (λ w. omega (arith, length-hex 8 w)))
      (word_ea-Gives pc
        (λ w. codes "#$" ++ (if is_byte size then hex_padded 2 (low_bits w 8) else hex_padded 4 w))
        (λ w. ground (arith, length-hex_padded 2 (low_bits w 8), length-hex_padded 4 w)))

disasm_ea_7-Gives : (pc reg : ℕ) (size : M68kSize) → Gives EaFits (disasm_ea_7 pc reg size)
unfolding disasm_ea_7
disasm_ea_7-Gives pc reg size =
    if-Gives (reg == 0)
      (word_ea-Gives pc (λ w. b'$' ∷ hex_padded 4 w ++ codes ".W")
        (λ w. omega (arith, length-append (hex_padded 4 w) (codes ".W"), length-hex_padded 4 w)))
      (if-Gives (reg == 1)
        (long_ea-Gives pc (λ w. b'$' ∷ hex_padded 8 w ++ codes ".L")
          (λ w. omega (arith, length-append (hex_padded 8 w) (codes ".L"), length-hex_padded 8 w)))
        (if-Gives (reg == 2)
          (word_ea-Gives pc (λ w. b'$' ∷ hex 8 (add32 pc (sext16 w)) ++ codes "(PC)")
            (λ w.
              let target = hex 8 (add32 pc (sext16 w)) in
              omega
                (arith, length-append target (codes "(PC)"), length-hex 8 (add32 pc (sext16 w)))))
          (if-Gives (reg == 3)
            (word_ea-Gives pc
              (λ w. s8_text (low_bits w 8) ++ codes "(PC," ++ index_text w ++ codes ")")
              (λ w.
                simp length-append
                  (omega (arith, length-signed 3 8 (low_bits w 8), length-index_text w))))
            (if-Gives (reg == 4) (disasm_immediate-Gives pc size)
              (plain_ea-Gives (codes "???") (omega arith))))))

pub disasm_ea-Gives :
    (pc mode reg : ℕ) (size : M68kSize) → Gives EaFits (disasm_ea pc mode reg size)
unfolding disasm_ea
disasm_ea-Gives pc mode reg size = if-Gives (mode == 0) (plain_ea-Gives _ (omega arith)) (
    if-Gives (mode == 1) (plain_ea-Gives _ (omega arith)) (
      if-Gives (mode == 2) (plain_ea-Gives _ (omega arith)) (
        if-Gives (mode == 3) (plain_ea-Gives _ (omega arith)) (
          if-Gives (mode == 4) (plain_ea-Gives _ (omega arith)) (
            if-Gives (mode == 5)
              (word_ea-Gives pc _ (λ w. simp length-append (omega (arith, length-signed 5 16 w))))
              (if-Gives (mode == 6)
                (word_ea-Gives pc _ (λ w.
                  simp length-append
                    (omega (arith, length-signed 3 8 (low_bits w 8), length-index_text w))))
                (disasm_ea_7-Gives pc reg size)))))))
