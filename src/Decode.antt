-- ===== src/Decode.antt =====
-- The fields of an opcode word, and the pieces that the handlers of src/m68k/ops_*.c share.
use rocket.Base.{
  ℕ, Bool, not, ◌&&◌, ◌||◌, ⊤, ◌==◌, ltb, if◌then◌else◌, bit_and, bit_or, shr, low_bits, test_bit,
}
use rocket.Cpu.{
  M68kSize, size_byte, size_word, size_long, is_long, is_byte, size_bits, sr_x, M, pure, gets,
  set_d, spend, ◌>>=◌, ◌>>◌,
}
use rocket.Exception.{m68k_fetch, m68k_write_size}
use rocket.Ea.{M68kEa, fetch_long}

-- `(opcode >> 9) & 7`, `(opcode >> 6) & 7`, `(opcode >> 3) & 7`, `opcode & 7`, `(opcode >> 6) & 3`.
abbrev pub reg_field : ℕ → ℕ
reg_field opcode = low_bits (shr opcode 9) 3

abbrev pub opmode_field : ℕ → ℕ
opmode_field opcode = low_bits (shr opcode 6) 3

abbrev pub mode_field : ℕ → ℕ
mode_field opcode = low_bits (shr opcode 3) 3

abbrev pub ea_reg_field : ℕ → ℕ
ea_reg_field opcode = low_bits opcode 3

abbrev pub size_field : ℕ → ℕ
size_field opcode = low_bits (shr opcode 6) 2

-- `switch (size_bits)`: size code 3 returns.
abbrev pub with_size : ℕ → (M68kSize → M ⊤) → M ⊤
with_size code body =
    if code == 0
    then body size_byte
    else if code == 1
    then body size_word
    else if code == 2
    then body size_long
    else pure tt

-- `switch (opmode)` of ADD and SUB.
abbrev pub opmode_size : ℕ → M68kSize
opmode_size opmode =
    if opmode == 0 || opmode == 4
    then size_byte
    else if opmode == 1 || opmode == 3 || opmode == 5
    then size_word
    else size_long

-- `mode == 1 || (mode == 7 && reg > 1)`.
abbrev pub not_data_alterable : ℕ → ℕ → Bool
not_data_alterable mode reg = mode == 1 || mode == 7 && ltb 1 reg

-- `mode == 1 || (mode == 7 && reg > 4)`.
abbrev pub not_data : ℕ → ℕ → Bool
not_data mode reg = mode == 1 || mode == 7 && ltb 4 reg

-- `(old & ~mask) | (result & mask)`, with the mask of the size.
abbrev pub inverse_mask : M68kSize → ℕ
inverse_mask size_byte = 0xFFFFFF00
inverse_mask size_word = 0xFFFF0000
inverse_mask size_long = 0

unfoldable pub merge : M68kSize → ℕ → ℕ → ℕ
merge size old result = bit_or (bit_and old (inverse_mask size)) (low_bits result (size_bits size))

abbrev pub merge_d : ℕ → ℕ → M68kSize → M ⊤
merge_d i result size = do old ← gets (λ c. c.d_regs i); set_d i (merge size old result)

-- The result goes to the data register or to memory.
unfoldable pub write_back : M68kEa → ℕ → M68kSize → M ⊤
write_back ea result size =
    if ea.is_reg && not ea.is_addr
    then merge_d ea.reg_num result size
    else m68k_write_size ea.address result size

-- The immediate operand of ADDI and its like, and the cost that is spent before the EA is
-- resolved.
unfoldable pub fetch_immediate : M68kSize → M ℕ
fetch_immediate size = do
  imm ←
      (if is_long size
        then fetch_long
        else (do word ← m68k_fetch; pure (if is_byte size then low_bits word 8 else word)))
  spend (if is_long size then 8 else 4)
  pure imm

-- `(cpu->sr & M68K_SR_X) ? 1 : 0`.
abbrev pub extend_bit : ℕ → ℕ
extend_bit sr = if test_bit sr_x sr then 1 else 0

-- `(old & 0xFFFFFF00) | result`, for a result of one byte.
abbrev pub set_low_byte : ℕ → ℕ → M ⊤
set_low_byte i result = do
  old ← gets (λ c. c.d_regs i)
  set_d i (bit_or (bit_and old 0xFFFFFF00) result)
