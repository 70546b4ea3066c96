-- ===== src/Arith/Compare.antt =====
-- CMP, CMPA, CMPM and CMPI.
use rocket.Base.{ℕ, true, not, ◌&&◌, ◌||◌, ⊤, ◌==◌, ltb, leb, if◌then◌else◌, low_bits, add32, sub32}
use rocket.Cpu.{
  M68kSize, size_long, is_long, is_byte, size_bits, M, pure, gets, modify, set_a, spend, ◌>>=◌,
  ◌>>◌,
}
use rocket.Exception.{m68k_exception, m68k_read_size}
use rocket.Ea.{m68k_calc_ea, ea_step}
use rocket.Flags.{update_flags_cmp}
use rocket.Decode.{
  reg_field, opmode_field, mode_field, ea_reg_field, size_field, with_size, not_data_alterable,
  fetch_immediate, opmode_size,
}
use rocket.Arith.Add.{address_source}

-- CMPM: the source increment commits before its read, for a long one word at a time.
unfoldable pub cmpm_source : ℕ → M68kSize → M ℕ
cmpm_source reg size = do
  src_addr ← gets (λ c. c.a_regs reg)
  if is_long size
      then (do
        set_a reg (add32 src_addr 2)
        src_val ← m68k_read_size src_addr size
        an ← gets (λ c. c.a_regs reg)
        set_a reg (add32 an 2)
        pure src_val)
      else (do set_a reg (add32 src_addr (ea_step reg size)); m68k_read_size src_addr size)

unfoldable pub exec_cmpm : ℕ → ℕ → M68kSize → M ⊤
exec_cmpm reg reg_idx size = do
  modify (λ c. record c { fault_pc = add32 c.pc 2; fault_pc_valid = true })
  spend 4
  src_val ← cmpm_source reg size
  spend (if is_long size then 8 else 4)
  dest_addr ← gets (λ c. c.a_regs reg_idx)
  dest_val ← m68k_read_size dest_addr size
  an ← gets (λ c. c.a_regs reg_idx)
  set_a reg_idx (add32 an (ea_step reg_idx size))
  update_flags_cmp src_val dest_val (sub32 dest_val src_val) size

unfoldable pub exec_cmp : ℕ → M ⊤
exec_cmp opcode = do
  let reg_idx = reg_field opcode
  let opmode = opmode_field opcode
  let mode = mode_field opcode
  let reg = ea_reg_field opcode
  let size = opmode_size opmode
  let cmpa = opmode == 3 || opmode == 7
  if leb 4 opmode && leb opmode 6
      then (if mode == 1 then exec_cmpm reg reg_idx size else m68k_exception 4)
      else if mode == 1 && is_byte size && not cmpa || mode == 7 && ltb 4 reg
      then m68k_exception 4
      else (do
        ea ← m68k_calc_ea mode reg size
        c ← gets (λ c. c)
        if cmpa
            then (do
              let src = address_source size ea.value
              let dest = c.a_regs reg_idx
              update_flags_cmp src dest (sub32 dest src) size_long)
            else (do
              let src = low_bits ea.value (size_bits size)
              let dest = low_bits (c.d_regs reg_idx) (size_bits size)
              update_flags_cmp src dest (sub32 dest src) size))

unfoldable pub exec_cmpi : ℕ → M ⊤
exec_cmpi opcode = with_size (size_field opcode) λ size. do
  let mode = mode_field opcode
  let reg = ea_reg_field opcode
  if not_data_alterable mode reg then m68k_exception 4 else (do
    src ← fetch_immediate size
    ea ← m68k_calc_ea mode reg size
    update_flags_cmp src ea.value (sub32 ea.value src) size)
