-- ===== src/Core/Lifecycle.antt =====
-- `m68k_init`, `m68k_reset` and the accessors.
use rocket.Base.{ℕ, false, ⊤, ltb, if◌then◌else◌}
use rocket.Cpu.{M68kCpu, M68kModel, zero_cpu, M, gets, modify, when, set_d, set_a, ◌>>=◌, ◌>>◌}
use rocket.Exception.{m68k_read_32}

unfoldable pub m68k_init : (ℕ → ℕ) → ℕ → M68kCpu
m68k_init memory memory_size = record zero_cpu { memory = memory; memory_size = memory_size }

-- What `m68k_reset` assigns before it reads the vectors.
unfoldable pub reset_state : M68kCpu → M68kCpu
reset_state c = record c {
  d_regs = λ i. if ltb i 8 then 0 else c.d_regs i;
  a_regs = λ i. if ltb i 8 then 0 else c.a_regs i;
  sr = 0x2700;
  usp = 0;
  stopped = false;
  trace_pending = false;
  exception_thrown = 0;
  irq_level = 0;
  nmi_pending = false;
  in_address_error = false;
  in_bus_error = false;
  fault_program_access = false;
  fault_valid = false;
  group0_fault = false;
  fault_trap_active = false;
  exception_depth = 0;
  ppc = 0;
  ir = 0;
  vbr = 0;
}

unfoldable pub m68k_reset : M ⊤
m68k_reset = do
  modify reset_state
  ssp ← m68k_read_32 0x00000000
  set_a 7 ssp
  pc ← m68k_read_32 0x00000004
  modify (λ c. record c { pc = pc })

-- Register numbers are not negative here; one of 8 or more is out of range.
unfoldable pub m68k_set_dr : ℕ → ℕ → M ⊤
m68k_set_dr reg value = when (ltb reg 8) (set_d reg value)

unfoldable pub m68k_get_dr : ℕ → M ℕ
m68k_get_dr reg = gets (λ c. if ltb reg 8 then c.d_regs reg else 0)

unfoldable pub m68k_set_ar : ℕ → ℕ → M ⊤
m68k_set_ar reg value = when (ltb reg 8) (set_a reg value)

unfoldable pub m68k_get_ar : ℕ → M ℕ
m68k_get_ar reg = gets (λ c. if ltb reg 8 then c.a_regs reg else 0)

unfoldable pub m68k_set_model : M68kModel → M ⊤
m68k_set_model model = modify (λ c. record c { model = model })

unfoldable pub m68k_get_model : M M68kModel
m68k_get_model = gets (λ c. c.model)

unfoldable pub m68k_get_pc : M ℕ
m68k_get_pc = gets (λ c. c.pc)
