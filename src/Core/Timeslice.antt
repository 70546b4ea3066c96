-- ===== src/Core/Timeslice.antt =====
-- The cycle counters of a timeslice.
use rocket.Base.{ℤ, pos, ◌+ℤ◌, ◌-ℤ◌}
use rocket.Cpu.{M68kCpu}

unfoldable pub m68k_cycles_run : M68kCpu → ℤ
m68k_cycles_run c = c.target_cycles -ℤ c.cycles_remaining

unfoldable pub m68k_modify_timeslice : ℤ → M68kCpu → M68kCpu
m68k_modify_timeslice cycles c = record c {
  target_cycles = c.target_cycles +ℤ cycles;
  cycles_remaining = c.cycles_remaining +ℤ cycles;
}

unfoldable pub m68k_end_timeslice : M68kCpu → M68kCpu
m68k_end_timeslice c = record c {
  target_cycles = c.target_cycles -ℤ c.cycles_remaining;
  cycles_remaining = pos 0;
}
