-- ===== src/Move/Registers.antt =====
-- MOVEQ, LEA, PEA, LINK, UNLK, EXG and SWAP.
use rocket.Base.{
  ℕ, true, false, ⊤, ◌==◌, if◌then◌else◌, bit_or, shl, shr, low_bits, u32, add32, sext8, sext16,
  update,
}
use rocket.Cpu.{M68kCpu, size_long, M, gets, modify, set_d, set_a, spend, ◌>>=◌, ◌>>◌}
use rocket.Exception.{m68k_fetch, m68k_push_32, m68k_read_32}
use rocket.Ea.{m68k_calc_ea_ctl}
use rocket.Flags.{update_flags_logic}
use rocket.Decode.{reg_field, mode_field, ea_reg_field}

unfoldable pub exec_moveq : ℕ → M ⊤
exec_moveq opcode = do
  set_d (reg_field opcode) (sext8 opcode)
  update_flags_logic (sext8 opcode) size_long

unfoldable pub exec_lea : ℕ → M ⊤
exec_lea opcode = do
  ea ← m68k_calc_ea_ctl (mode_field opcode) (ea_reg_field opcode) false
  set_a (reg_field opcode) ea.address

unfoldable pub exec_pea : ℕ → M ⊤
exec_pea opcode = do
  ea ← m68k_calc_ea_ctl (mode_field opcode) (ea_reg_field opcode) false
  m68k_push_32 ea.address

unfoldable pub exec_link : ℕ → M ⊤
exec_link opcode = do
  let reg = ea_reg_field opcode
  displacement ← m68k_fetch
  an ← gets (λ c. c.a_regs reg)
  m68k_push_32 an
  sp ← gets (λ c. c.a_regs 7)
  set_a reg sp
  modify (λ c. record c { a_regs = update c.a_regs 7 (add32 (c.a_regs 7) (sext16 displacement)) })

-- The frame pointer is read before the stack pointer moves.
unfoldable pub exec_unlk : ℕ → M ⊤
exec_unlk opcode = do
  let reg = ea_reg_field opcode
  frame_sp ← gets (λ c. c.a_regs reg)
  modify (λ c. record c { fault_pc = add32 c.pc 2; fault_pc_valid = true })
  spend 4
  value ← m68k_read_32 frame_sp
  set_a 7 (add32 frame_sp 4)
  set_a reg value

-- Two data registers, two address registers, or one of each, by the operation mode.
unfoldable pub exg : ℕ → ℕ → ℕ → M68kCpu → M68kCpu
exg opmode rx ry c =
    if opmode == 0x08
    then record c { d_regs = update (update c.d_regs rx (c.d_regs ry)) ry (c.d_regs rx) }
    else if opmode == 0x09
    then record c { a_regs = update (update c.a_regs rx (c.a_regs ry)) ry (c.a_regs rx) }
    else if opmode == 0x11
    then record c {
      d_regs = update c.d_regs rx (c.a_regs ry);
      a_regs = update c.a_regs ry (c.d_regs rx);
    }
    else c

unfoldable pub exec_exg : ℕ → M ⊤
exec_exg opcode = modify (exg (low_bits (shr opcode 3) 5) (reg_field opcode) (ea_reg_field opcode))

unfoldable pub swap : ℕ → ℕ
swap val = bit_or (u32 (shl val 16)) (shr val 16)

unfoldable pub exec_swap : ℕ → M ⊤
exec_swap opcode = do
  let reg = ea_reg_field opcode
  val ← gets (λ c. c.d_regs reg)
  set_d reg (swap val)
  update_flags_logic (swap val) size_long
