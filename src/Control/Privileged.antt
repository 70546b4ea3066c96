-- ===== src/Control/Privileged.antt =====
-- STOP, RESET and MOVEC.
use rocket.Base.{ℕ, true, not, ◌||◌, none, some, ⊤, ◌==◌, if◌then◌else◌, shr, low_bits, test_bit}
use rocket.Cpu.{M68kCpu, M, pure, gets, modify, asks, set_a, set_d, ◌>>=◌, ◌>>◌}
use rocket.Exception.{m68k_exception, m68k_fetch, m68k_set_sr}
use rocket.Control.Return.{privileged}

unfoldable pub exec_stop : ℕ → M ⊤
exec_stop opcode =
    privileged (do imm ← m68k_fetch; m68k_set_sr imm; modify (λ c. record c { stopped = true }))

unfoldable pub exec_reset : ℕ → M ⊤
exec_reset opcode =
    privileged (do cb ← asks (λ h. h.reset_cb); elim cb [ none ↦ pure tt | some f ↦ modify f ])

-- The control registers SFC, DFC, USP and VBR.
unfoldable pub write_control : ℕ → ℕ → M68kCpu → M68kCpu
write_control ctrl_reg v c =
    if ctrl_reg == 0x000
    then record c { sfc = v }
    else if ctrl_reg == 0x001
    then record c { dfc = v }
    else if ctrl_reg == 0x800
    then record c { usp = v }
    else record c { vbr = v }

unfoldable pub read_control : ℕ → M68kCpu → ℕ
read_control ctrl_reg c =
    if ctrl_reg == 0x000
    then c.sfc
    else if ctrl_reg == 0x001
    then c.dfc
    else if ctrl_reg == 0x800
    then c.usp
    else c.vbr

unfoldable pub exec_movec : ℕ → M ⊤
exec_movec opcode = privileged (do
  ext ← m68k_fetch
  let is_addr = test_bit 15 ext
  let reg_num = low_bits (shr ext 12) 3
  let ctrl_reg = low_bits ext 12
  c ← gets (λ c. c)
  if not (ctrl_reg == 0x000 || ctrl_reg == 0x001 || ctrl_reg == 0x800 || ctrl_reg == 0x801)
      then m68k_exception 4
      else if test_bit 0 opcode
      then modify (write_control ctrl_reg (if is_addr then c.a_regs reg_num else c.d_regs reg_num))
      else if is_addr
      then set_a reg_num (read_control ctrl_reg c)
      else set_d reg_num (read_control ctrl_reg c))
