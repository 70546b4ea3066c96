-- ===== src/Move/Status.antt =====
-- MOVE to and from SR, CCR and USP.
use rocket.Base.{ℕ, not, ◌&&◌, ⊤, ◌==◌, if◌then◌else◌, bit_and, bit_or, low_bits, test_bit}
use rocket.Cpu.{
  size_word, is_68010, sr_s, M, pure, gets, modify, modify_sr, set_d, set_a, ◌>>=◌, ◌>>◌,
}
use rocket.Exception.{m68k_exception, m68k_read_size, m68k_write_size, m68k_set_sr}
use rocket.Ea.{M68kEa, m68k_calc_ea, m68k_calc_ea_addr}
use rocket.Decode.{mode_field, ea_reg_field, not_data, not_data_alterable}
use rocket.Control.{privileged, refuse}

-- A word that goes to a data register, or to memory after a read of it.
unfoldable pub store_status : M68kEa → ℕ → M ⊤
store_status ea word =
    if ea.is_reg && not ea.is_addr
    then (do
      old ← gets (λ c. c.d_regs ea.reg_num)
      set_d ea.reg_num (bit_or (bit_and old 0xFFFF0000) word))
    else (do m68k_read_size ea.address size_word; m68k_write_size ea.address word size_word)

unfoldable pub move_to_sr : ℕ → ℕ → M ⊤
move_to_sr mode reg =
    if not_data mode reg
    then m68k_exception 4
    else privileged (do ea ← m68k_calc_ea mode reg size_word; m68k_set_sr ea.value)

unfoldable pub move_from_sr : ℕ → ℕ → M ⊤
move_from_sr mode reg = do
  c ← gets (λ c. c)
  if not_data_alterable mode reg
      then m68k_exception 4
      else if is_68010 c.model && not (test_bit sr_s c.sr)
      then refuse 8
      else (do
        ea ← m68k_calc_ea_addr mode reg size_word
        sr ← gets (λ c. c.sr)
        if ea.is_reg && not ea.is_addr then store_status ea sr else (do
          m68k_read_size ea.address size_word
          sr ← gets (λ c. c.sr)
          m68k_write_size ea.address sr size_word))

-- The condition codes are read before a memory destination is.
unfoldable pub move_from_ccr : ℕ → ℕ → M ⊤
move_from_ccr mode reg = if not_data_alterable mode reg then m68k_exception 4 else (do
  ea ← m68k_calc_ea_addr mode reg size_word
  sr ← gets (λ c. c.sr)
  store_status ea (low_bits sr 8))

unfoldable pub exec_move_sr : ℕ → M ⊤
exec_move_sr opcode = do
  let mode = mode_field opcode
  let reg = ea_reg_field opcode
  if bit_and opcode 0xFFC0 == 0x46C0
      then move_to_sr mode reg
      else if bit_and opcode 0xFFC0 == 0x40C0
      then move_from_sr mode reg
      else if bit_and opcode 0xFFC0 == 0x42C0
      then move_from_ccr mode reg
      else pure tt

unfoldable pub exec_move_usp : ℕ → M ⊤
exec_move_usp opcode = privileged (do
  let reg = ea_reg_field opcode
  c ← gets (λ c. c)
  if not (test_bit 3 opcode)
      then modify (λ c. record c { usp = c.a_regs reg })
      else set_a reg c.usp)

unfoldable pub exec_move_ccr : ℕ → M ⊤
exec_move_ccr opcode = do
  let mode = mode_field opcode
  let reg = ea_reg_field opcode
  if not_data mode reg then m68k_exception 4 else (do
    ea ← m68k_calc_ea mode reg size_word
    modify_sr (λ sr. bit_or (bit_and sr 0xFF00) (low_bits ea.value 5)))
