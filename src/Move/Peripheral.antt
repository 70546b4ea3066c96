-- ===== src/Move/Peripheral.antt =====
-- MOVEP and MOVES. Where one expression of the source reads several bytes, C leaves their order
-- open; here they are read from left to right.
use rocket.Base.{
  ℕ, ◌&&◌, ◌||◌, ⊤, ◌==◌, ltb, if◌then◌else◌, bit_and, bit_or, shl, shr, low_bits, test_bit, add32,
  sext8, sext16,
}
use rocket.Cpu.{M68kSize, size_byte, size_word, size_long, M, pure, gets, set_d, set_a, ◌>>=◌, ◌>>◌}
use rocket.Exception.{m68k_exception, m68k_fetch, m68k_read_8, m68k_write_8, m68k_write_size}
use rocket.Ea.{m68k_calc_ea, m68k_calc_ea_addr}
use rocket.Decode.{
  reg_field, opmode_field, mode_field, ea_reg_field, size_field, with_size, merge_d,
}
use rocket.Control.{privileged}

unfoldable pub movep_load_word : ℕ → ℕ → M ⊤
movep_load_word data_reg addr = do
  old ← gets (λ c. c.d_regs data_reg)
  b0 ← m68k_read_8 addr
  b1 ← m68k_read_8 (add32 addr 2)
  set_d data_reg (bit_or (bit_or (bit_and old 0xFFFF0000) (shl b0 8)) b1)

unfoldable pub movep_load_long : ℕ → ℕ → M ⊤
movep_load_long data_reg addr = do
  b0 ← m68k_read_8 addr
  b1 ← m68k_read_8 (add32 addr 2)
  b2 ← m68k_read_8 (add32 addr 4)
  b3 ← m68k_read_8 (add32 addr 6)
  set_d data_reg (bit_or (bit_or (bit_or (shl b0 24) (shl b1 16)) (shl b2 8)) b3)

unfoldable pub movep_store_byte : ℕ → ℕ → ℕ → M ⊤
movep_store_byte data_reg shift addr = do
  v ← gets (λ c. c.d_regs data_reg)
  m68k_write_8 addr (low_bits (shr v shift) 8)

unfoldable pub exec_movep : ℕ → M ⊤
exec_movep opcode = do
  let data_reg = reg_field opcode
  let opmode = opmode_field opcode
  disp ← m68k_fetch
  addr ← gets (λ c. add32 (c.a_regs (ea_reg_field opcode)) (sext16 disp))
  if opmode == 4
      then movep_load_word data_reg addr
      else if opmode == 5
      then movep_load_long data_reg addr
      else if opmode == 6
      then (do movep_store_byte data_reg 8 addr; movep_store_byte data_reg 0 (add32 addr 2))
      else if opmode == 7
      then (do
        movep_store_byte data_reg 24 addr
        movep_store_byte data_reg 16 (add32 addr 2)
        movep_store_byte data_reg 8 (add32 addr 4)
        movep_store_byte data_reg 0 (add32 addr 6))
      else pure tt

-- A value that MOVES has read, for an address register.
abbrev pub moves_extended : M68kSize → ℕ → ℕ
moves_extended size_byte val = sext8 val
moves_extended size_word val = sext16 val
moves_extended size_long val = val

unfoldable pub moves_sized : ℕ → ℕ → M68kSize → M ⊤
moves_sized mode reg size = do
  ext ← m68k_fetch
  let is_addr = test_bit 15 ext
  let reg_num = low_bits (shr ext 12) 3
  if low_bits ext 11 == 0
      then (if test_bit 11 ext
          then (do
            ea ← m68k_calc_ea_addr mode reg size
            val ← gets (λ c. if is_addr then c.a_regs reg_num else c.d_regs reg_num)
            m68k_write_size ea.address val size)
          else (do
            ea ← m68k_calc_ea mode reg size
            if is_addr
                then set_a reg_num (moves_extended size ea.value)
                else merge_d reg_num ea.value size))
      else m68k_exception 4

unfoldable pub exec_moves : ℕ → M ⊤
exec_moves opcode = do
  let mode = mode_field opcode
  let reg = ea_reg_field opcode
  if ltb mode 2 || mode == 7 && ltb 1 reg
      then m68k_exception 4
      else privileged (with_size (size_field opcode) (moves_sized mode reg))
