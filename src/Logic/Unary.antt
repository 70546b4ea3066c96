-- ===== src/Logic/Unary.antt =====
-- NOT, CLR and TST.
use rocket.Base.{ℕ, ◌-◌, ◌^◌, not, ◌&&◌, ⊤, if◌then◌else◌, bit_and, bit_or}
use rocket.Cpu.{M68kSize, sr_z, sr_n, M, gets, modify_sr, set_d, ◌>>=◌, ◌>>◌}
use rocket.Exception.{m68k_exception, m68k_read_size, m68k_write_size}
use rocket.Ea.{M68kEa, m68k_calc_ea}
use rocket.Flags.{raise_if, msb, is_zero, update_flags_logic}
use rocket.Decode.{
  mode_field, ea_reg_field, size_field, with_size, not_data_alterable, inverse_mask, write_back,
}

unfoldable pub exec_not : ℕ → M ⊤
exec_not opcode = with_size (size_field opcode) λ size. do
  let mode = mode_field opcode
  let reg = ea_reg_field opcode
  if not_data_alterable mode reg then m68k_exception 4 else (do
    ea ← m68k_calc_ea mode reg size
    let result = 2 ^ 32 - 1 - ea.value
    write_back ea result size
    update_flags_logic result size)

-- The store of a zero: a register keeps its high part, memory is read before it is written.
unfoldable pub clear_operand : M68kEa → M68kSize → M ⊤
clear_operand ea size =
    if ea.is_reg && not ea.is_addr
    then (do
      old ← gets (λ c. c.d_regs ea.reg_num)
      set_d ea.reg_num (bit_and old (inverse_mask size)))
    else (do m68k_read_size ea.address size; m68k_write_size ea.address 0 size)

unfoldable pub exec_clr : ℕ → M ⊤
exec_clr opcode = with_size (size_field opcode) λ size. do
  let mode = mode_field opcode
  let reg = ea_reg_field opcode
  if not_data_alterable mode reg then m68k_exception 4 else (do
    ea ← m68k_calc_ea mode reg size
    clear_operand ea size
    modify_sr (λ sr. bit_or (bit_and sr 0xFFF0) 4))

unfoldable pub exec_tst : ℕ → M ⊤
exec_tst opcode = with_size (size_field opcode) λ size. do
  let mode = mode_field opcode
  let reg = ea_reg_field opcode
  if not_data_alterable mode reg then m68k_exception 4 else (do
    ea ← m68k_calc_ea mode reg size
    modify_sr (λ sr.
        raise_if (is_zero size ea.value) sr_z
          (raise_if (msb size ea.value) sr_n (bit_and sr 0xFFF0))))
