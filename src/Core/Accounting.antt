-- ===== src/Core/Accounting.antt =====
-- The count of cycles run in a timeslice that changes (src/m68k/m68k.c:
-- `m68k_modify_timeslice`, `m68k_end_timeslice`, `m68k_cycles_run`).
use rocket.Base.{ℤ, pos, ◌≡◌, int_laws}
use rocket.Cpu.{M68kCpu}
use rocket.Core.Timeslice.{m68k_cycles_run, m68k_modify_timeslice, m68k_end_timeslice}

-- Neither the extension nor the early end of a timeslice changes the number of cycles that have
-- run in it, and the end leaves none to run.
pub m68k_cycles_run-kept :
    (cycles : ℤ) (c : M68kCpu)
    → (m68k_cycles_run (m68k_modify_timeslice cycles c) ≡ m68k_cycles_run c)
      × (m68k_cycles_run (m68k_end_timeslice c) ≡ m68k_cycles_run c)
      × ((m68k_end_timeslice (m68k_modify_timeslice cycles c)).target_cycles ≡ m68k_cycles_run c)
      × ((m68k_end_timeslice c).cycles_remaining ≡ pos 0)
unfolding m68k_cycles_run m68k_modify_timeslice m68k_end_timeslice
m68k_cycles_run-kept cycles c = (omega int_laws, omega int_laws, omega int_laws, omega int_laws)
