-- ===== src/Arith/Bcd.antt =====
-- ABCD, SBCD and NBCD.
pub mod Digits
use rocket.Base.{
  ℕ, ◌+◌, Bool, true, false, not, ◌&&◌, ◌||◌, ⊤, ◌==◌, ltb, if◌then◌else◌, bit_and, bit_or,
  low_bits, test_bit, u8, u32, sub32,
}
use rocket.Cpu.{
  M68kCpu, size_byte, sr_c, sr_v, sr_n, sr_x, M, pure, gets, modify_sr, set_a, set_d, ◌>>=◌, ◌>>◌,
}
use rocket.Exception.{m68k_exception, m68k_read_8, m68k_write_8}
use rocket.Ea.{M68kEa, m68k_calc_ea}
use rocket.Flags.{raise_if}
use rocket.Decode.{
  set_low_byte, reg_field, mode_field, ea_reg_field, not_data_alterable, extend_bit,
}
unfoldable pub use Digits.*

-- `sr &= ~(N | V | C | X)`, the flags of the result, and Z cleared by a result that is not zero.
unfoldable pub flags_bcd : BcdResult → ℕ → ℕ
flags_bcd r sr =
    let sr' = raise_if r.c_flag sr_x (
      raise_if r.c_flag sr_c
        (raise_if r.v_flag sr_v (raise_if (test_bit 7 r.result) sr_n (bit_and sr 0xFFE4)))) in
    if r.result == 0 then sr' else bit_and sr' 0xFFFB

-- The byte below an address register; A7 moves by two.
unfoldable pub bcd_predec : ℕ → M ℕ
bcd_predec reg = do
  an ← gets (λ c. c.a_regs reg)
  let address = sub32 an (if reg == 7 then 2 else 1)
  set_a reg address
  m68k_read_8 address

unfoldable pub bcd_operands : Bool → ℕ → ℕ → M (ℕ × ℕ)
bcd_operands rm rx ry =
    if rm
    then (do src ← bcd_predec ry; dest ← bcd_predec rx; pure (src, dest))
    else gets (λ c. (low_bits (c.d_regs ry) 8, low_bits (c.d_regs rx) 8))

unfoldable pub bcd_store : Bool → ℕ → ℕ → M ⊤
bcd_store rm rx result =
    if rm
    then (do address ← gets (λ c. c.a_regs rx); m68k_write_8 address result)
    else set_low_byte rx result

unfoldable pub exec_abcd : ℕ → M ⊤
exec_abcd opcode = do
  let rx = reg_field opcode
  let rm = test_bit 3 opcode
  (src, dest) ← bcd_operands rm rx (ea_reg_field opcode)
  x ← gets (λ c. extend_bit c.sr)
  let r = bcd_add src dest x
  modify_sr (flags_bcd r)
  bcd_store rm rx r.result

unfoldable pub exec_sbcd : ℕ → M ⊤
exec_sbcd opcode = do
  let rx = reg_field opcode
  let rm = test_bit 3 opcode
  (src, dest) ← bcd_operands rm rx (ea_reg_field opcode)
  x ← gets (λ c. extend_bit c.sr)
  let r = bcd_sub src dest x
  modify_sr (flags_bcd r)
  bcd_store rm rx r.result

unfoldable pub exec_nbcd : ℕ → M ⊤
exec_nbcd opcode = do
  let mode = mode_field opcode
  let reg = ea_reg_field opcode
  if not_data_alterable mode reg then m68k_exception 4 else (do
    ea ← m68k_calc_ea mode reg size_byte
    x ← gets (λ c. extend_bit c.sr)
    let r = bcd_negate (low_bits ea.value 8) x
    modify_sr (flags_bcd r)
    if ea.is_reg && not ea.is_addr
        then set_low_byte ea.reg_num r.result
        else m68k_write_8 ea.address r.result)
