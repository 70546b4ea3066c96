-- ===== src/State/Context.antt =====
-- `m68k_get_context` and `m68k_set_context`. The callbacks and the jump buffer stand outside the
-- context of the model, so that they stay of themselves, and so does the state of the host.
use rocket.Base.{Bool, Option, none, some, if◌then◌else◌}
use rocket.Cpu.{M68kCpu}

-- The copy that is stored; a null destination stores none.
unfoldable pub m68k_get_context : Bool → M68kCpu → Option M68kCpu
m68k_get_context dst c = if dst then some c else none

unfoldable pub m68k_set_context : Option M68kCpu → M68kCpu → M68kCpu
m68k_set_context none c = c
m68k_set_context (some src) c = record src {
  memory = c.memory;
  memory_size = c.memory_size;
  fault_trap_active = c.fault_trap_active;
  host_state = c.host_state;
}
