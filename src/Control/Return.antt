-- ===== src/Control/Return.antt =====
-- RTS, RTE, RTR and RTD.
use rocket.Base.{
  ℕ, not, ⊤, ◌==◌, if◌then◌else◌, bit_and, bit_or, low_bits, test_bit, add32, sub32, sext16,
}
use rocket.Cpu.{is_68010, sr_s, M, gets, modify, modify_sr, set_a, ◌>>=◌, ◌>>◌}
use rocket.Exception.{
  m68k_exception, m68k_fetch, m68k_read_16, m68k_read_32, m68k_pop_16, m68k_pop_32, m68k_set_pc,
  m68k_set_sr,
}

-- `cpu->pc -= 2; m68k_exception(cpu, vector)`.
unfoldable pub refuse : ℕ → M ⊤
refuse vector = do modify (λ c. record c { pc = sub32 c.pc 2 }); m68k_exception vector

-- A privileged instruction traps in user mode.
unfoldable pub privileged : M ⊤ → M ⊤
privileged body = do sr ← gets (λ c. c.sr); if not (test_bit sr_s sr) then refuse 8 else body

unfoldable pub exec_rts : ℕ → M ⊤
exec_rts opcode = do pc ← m68k_pop_32; m68k_set_pc pc

-- The 68010 checks the format word before it commits.
unfoldable pub rte_68010 : M ⊤
rte_68010 = do
  sp ← gets (λ c. c.a_regs 7)
  fmt ← m68k_read_16 (add32 sp 6)
  if not (bit_and fmt 0xF000 == 0) then refuse 14 else (do
    new_sr ← m68k_read_16 sp
    new_pc ← m68k_read_32 (add32 sp 2)
    set_a 7 (add32 sp 8)
    m68k_set_sr new_sr
    m68k_set_pc new_pc)

unfoldable pub rte_68000 : M ⊤
rte_68000 = do new_sr ← m68k_pop_16; new_pc ← m68k_pop_32; m68k_set_sr new_sr; m68k_set_pc new_pc

unfoldable pub exec_rte : ℕ → M ⊤
exec_rte opcode =
    privileged (do model ← gets (λ c. c.model); if is_68010 model then rte_68010 else rte_68000)

unfoldable pub exec_rtr : ℕ → M ⊤
exec_rtr opcode = do
  ccr ← m68k_pop_16
  return_pc ← m68k_pop_32
  modify_sr (λ sr. bit_or (bit_and sr 0xFF00) (low_bits ccr 5))
  m68k_set_pc return_pc

unfoldable pub exec_rtd : ℕ → M ⊤
exec_rtd opcode = do
  ret_addr ← m68k_pop_32
  disp ← m68k_fetch
  sp ← gets (λ c. c.a_regs 7)
  set_a 7 (add32 sp (sext16 disp))
  m68k_set_pc ret_addr
