-- ===== src/Disasm/Operand.antt =====
-- Operands: `peek_word`, `peek_long`, `size_str` and `disasm_ea` (src/disasm.c).
use rocket.Base.{
  ℕ, ◌+◌, ◌*◌, ◌^◌, Option, none, some, ◌∷◌, ◌++◌, ltb, ◌==◌, if◌then◌else◌, u16, low_bits,
  test_bit, shr, add32, sext16,
}
use rocket.Cpu.{M68kCpu, M68kSize, is_long, is_byte, M, pure, gets, asks, call, ◌>>=◌}
use rocket.Bus.{mask_address_24, memory_word}
use rocket.Disasm.Text.{Text, codes, clip, hex, hex_padded, s8_text, s16_text, digit_text}

-- The callback, or the bound memory.
unfoldable pub peek_through : Option (ℕ → M68kCpu → ℕ × M68kCpu) → ℕ → M ℕ
peek_through (some f) address = do v ← call (f address); pure (u16 v)
peek_through none address =
    gets (λ c. if ltb (address + 1) c.memory_size then memory_word c address else 0)

unfoldable pub peek_word : ℕ → M ℕ
peek_word pc = do cb ← asks (λ h. h.read16_cb); peek_through cb (mask_address_24 pc)

-- C leaves the order of the two reads open: the high word first here.
unfoldable pub peek_long : ℕ → M ℕ
peek_long pc = do high ← peek_word pc; low ← peek_word (add32 pc 2); pure (high * 2 ^ 16 + low)

unfoldable pub size_str : ℕ → Text
size_str size_code =
    if size_code == 0
    then codes ".B"
    else if size_code == 1
    then codes ".W"
    else if size_code == 2
    then codes ".L"
    else codes ".?"

-- The length of an operand's extension words, and its text.
pub record DisasmEa : Type 0 where
  pub bytes : ℕ
  pub text : Text

-- `snprintf(buf, DISASM_EA_SIZE, ...)` and `return bytes`.
unfoldable pub ea_text : ℕ → Text → DisasmEa
ea_text bytes text = record { bytes = bytes; text = clip 24 text }

-- The index register of an extension word and its size: `%c%d.%c`.
unfoldable pub index_text : ℕ → Text
index_text ext =
    (if test_bit 15 ext then b'A' else b'D') ∷ digit_text (low_bits (shr ext 12) 3)
    ++ (if test_bit 11 ext then codes ".L" else codes ".W")

unfoldable pub disasm_immediate : ℕ → M68kSize → M DisasmEa
disasm_immediate base_pc size =
    if is_long size
    then (do val ← peek_long base_pc; pure (ea_text 4 (codes "#$" ++ hex 8 val)))
    else (do
      val ← peek_word base_pc
      pure (
          ea_text 2 (
            codes "#$"
            ++ (if is_byte size then hex_padded 2 (low_bits val 8) else hex_padded 4 val))))

-- `case 7`.
unfoldable pub disasm_ea_7 : ℕ → ℕ → M68kSize → M DisasmEa
disasm_ea_7 base_pc reg size =
    if reg == 0
    then (do addr ← peek_word base_pc; pure (ea_text 2 (b'$' ∷ hex_padded 4 addr ++ codes ".W")))
    else if reg == 1
    then (do addr ← peek_long base_pc; pure (ea_text 4 (b'$' ∷ hex_padded 8 addr ++ codes ".L")))
    else if reg == 2
    then (do
      disp ← peek_word base_pc
      pure (ea_text 2 (b'$' ∷ hex 8 (add32 base_pc (sext16 disp)) ++ codes "(PC)")))
    else if reg == 3
    then (do
      ext ← peek_word base_pc
      pure (ea_text 2 (s8_text (low_bits ext 8) ++ codes "(PC," ++ index_text ext ++ codes ")")))
    else if reg == 4
    then disasm_immediate base_pc size
    else pure (ea_text 0 (codes "???"))

unfoldable pub disasm_ea : ℕ → ℕ → ℕ → M68kSize → M DisasmEa
disasm_ea base_pc mode reg size =
    let r = digit_text reg in
    if mode == 0
    then pure (ea_text 0 (codes "D" ++ r))
    else if mode == 1
    then pure (ea_text 0 (codes "A" ++ r))
    else if mode == 2
    then pure (ea_text 0 (codes "(A" ++ r ++ codes ")"))
    else if mode == 3
    then pure (ea_text 0 (codes "(A" ++ r ++ codes ")+"))
    else if mode == 4
    then pure (ea_text 0 (codes "-(A" ++ r ++ codes ")"))
    else if mode == 5
    then (do
      disp ← peek_word base_pc
      pure (ea_text 2 (s16_text disp ++ codes "(A" ++ r ++ codes ")")))
    else if mode == 6
    then (do
      ext ← peek_word base_pc
      pure (
          ea_text 2 (
            s8_text (low_bits ext 8)
            ++ codes "(A"
            ++ r
            ++ codes ","
            ++ index_text ext
            ++ codes ")")))
    else disasm_ea_7 base_pc reg size
