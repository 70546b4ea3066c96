-- ===== src/Control/Branch.antt =====
-- Bcc, BSR, DBcc, Scc, JMP, JSR, CHK and the traps.
use rocket.Base.{
  ℕ, ◌+◌, s16, ltb_ℤ, is_neg, Bool, true, not, ◌&&◌, ⊤, ◌==◌, if◌then◌else◌, bit_and, bit_or, shr,
  low_bits, test_bit, u16, add32, sub32, sext8, sext16,
}
use rocket.Cpu.{
  size_byte, size_word, sr_v, sr_n, M, pure, gets, modify_sr, set_d, spend, when, ◌>>=◌, ◌>>◌,
}
use rocket.Exception.{
  m68k_exception, m68k_fetch, m68k_write_8, m68k_push_32, m68k_set_pc, m68k_raise_odd_target_fault,
  m68k_raise_bus_target_fault, m68k_is_unmapped_target,
}
use rocket.Bus.{is_odd}
use rocket.Ea.{m68k_calc_ea, m68k_calc_ea_addr, m68k_calc_ea_ctl}
use rocket.Flags.{raise_if, check_condition}
use rocket.Decode.{reg_field, mode_field, ea_reg_field, not_data_alterable, not_data}

abbrev pub condition_field : ℕ → ℕ
condition_field opcode = low_bits (shr opcode 8) 4

-- The displacement of Bcc: its low byte, or the word that follows when that is zero.
unfoldable pub branch_displacement : ℕ → M ℕ
branch_displacement opcode =
    if low_bits opcode 8 == 0 then (do ext ← m68k_fetch; pure (sext16 ext)) else pure (sext8 opcode)

-- The target, from the PC behind the opcode.
abbrev pub branch_target : Bool → ℕ → ℕ → ℕ
branch_target is_word disp pc = if is_word then add32 (sub32 pc 2) disp else add32 pc disp

unfoldable pub bsr_to : ℕ → M ⊤
bsr_to target = do
  pc ← gets (λ c. c.pc)
  m68k_push_32 pc
  if is_odd target then (do m68k_raise_odd_target_fault target target; spend 18) else (do
    unmapped ← m68k_is_unmapped_target target
    if unmapped
        then (do m68k_raise_bus_target_fault target target; spend 18)
        else (do m68k_set_pc target; spend 18))

unfoldable pub bcc_to : ℕ → M ⊤
bcc_to target = do
  unmapped ← m68k_is_unmapped_target target
  if unmapped && not (is_odd target)
      then (do ppc ← gets (λ c. c.ppc); m68k_raise_bus_target_fault target (add32 ppc 2); spend 10)
      else (do m68k_set_pc target; spend 10)

unfoldable pub exec_bcc : ℕ → M ⊤
exec_bcc opcode = do
  let cond = condition_field opcode
  let is_word = low_bits opcode 8 == 0
  disp ← branch_displacement opcode
  c ← gets (λ c. c)
  let target = branch_target is_word disp c.pc
  if cond == 1
      then bsr_to target
      else if check_condition cond c.sr
      then bcc_to target
      else spend (if is_word then 12 else 8)

-- DBcc with a false condition: count down, and branch unless the counter was zero.
unfoldable pub dbcc_loop : ℕ → ℕ → M ⊤
dbcc_loop reg displacement = do
  c ← gets (λ c. c)
  let val = u16 (c.d_regs reg + 0xFFFF)
  let counted = bit_or (bit_and (c.d_regs reg) 0xFFFF0000) val
  let target = add32 (sub32 c.pc 2) displacement
  if val == 0xFFFF
      then (do set_d reg counted; spend 14)
      else if is_odd target
      then (do spend 10; m68k_raise_odd_target_fault target c.pc)
      else (do
        unmapped ← m68k_is_unmapped_target target
        if unmapped
            then (do spend 10; m68k_raise_bus_target_fault target c.pc)
            else (do set_d reg counted; spend 10; m68k_set_pc target))

unfoldable pub exec_dbcc : ℕ → M ⊤
exec_dbcc opcode = do
  ext ← m68k_fetch
  sr ← gets (λ c. c.sr)
  if check_condition (condition_field opcode) sr
      then spend 12
      else dbcc_loop (ea_reg_field opcode) (sext16 ext)

unfoldable pub exec_scc : ℕ → M ⊤
exec_scc opcode = do
  let mode = mode_field opcode
  let reg = ea_reg_field opcode
  if not_data_alterable mode reg then m68k_exception 4 else (do
    result ← gets (λ c. check_condition (condition_field opcode) c.sr)
    let val = (if result then 0xFF else 0x00)
    ea ← m68k_calc_ea_addr mode reg size_byte
    if ea.is_reg && not ea.is_addr
        then (do
          old ← gets (λ c. c.d_regs ea.reg_num)
          set_d ea.reg_num (bit_or (bit_and old 0xFFFFFF00) val)
          spend (if result then 6 else 4))
        else (do m68k_write_8 ea.address val; spend 8))

unfoldable pub jsr_to : ℕ → M ⊤
jsr_to address = do
  pc ← gets (λ c. c.pc)
  if is_odd address then m68k_raise_odd_target_fault address pc else (do
    unmapped ← m68k_is_unmapped_target address
    if unmapped
        then m68k_raise_bus_target_fault address pc
        else (do m68k_push_32 pc; m68k_set_pc address))

unfoldable pub jmp_to : ℕ → M ⊤
jmp_to address = do
  unmapped ← m68k_is_unmapped_target address
  if not (is_odd address) && unmapped
      then (do ppc ← gets (λ c. c.ppc); m68k_raise_bus_target_fault address (add32 ppc 2))
      else m68k_set_pc address

unfoldable pub exec_jmp : ℕ → M ⊤
exec_jmp opcode = do
  ea ← m68k_calc_ea_ctl (mode_field opcode) (ea_reg_field opcode) true
  if not (test_bit 6 opcode) then jsr_to ea.address else jmp_to ea.address

unfoldable pub exec_trap : ℕ → M ⊤
exec_trap opcode = m68k_exception (32 + low_bits opcode 4)

unfoldable pub exec_trapv : ℕ → M ⊤
exec_trapv opcode = do sr ← gets (λ c. c.sr); when (test_bit sr_v sr) (m68k_exception 7)

-- The cost of the trap of CHK.
unfoldable pub chk_cost : ℕ → ℕ → ℕ
chk_cost src bound =
    let rdiff = u16 (sub32 (u16 bound) (u16 src)) in
    if ltb_ℤ (s16 bound) (s16 src) then 38 else if test_bit 15 rdiff then 38 else 40

unfoldable pub exec_chk : ℕ → M ⊤
exec_chk opcode = do
  let mode = mode_field opcode
  let reg = ea_reg_field opcode
  if not_data mode reg then m68k_exception 4 else (do
    ea ← m68k_calc_ea mode reg size_word
    src ← gets (λ c. low_bits (c.d_regs (reg_field opcode)) 16)
    let bound = u16 ea.value
    modify_sr (λ sr. raise_if (is_neg (s16 src)) sr_n (bit_and sr 0xFFF0))
    if not (is_neg (s16 src)) && not (ltb_ℤ (s16 bound) (s16 src))
        then pure tt
        else (do spend (chk_cost src bound); m68k_exception 6))

unfoldable pub exec_bkpt : ℕ → M ⊤
exec_bkpt opcode = m68k_exception 4
