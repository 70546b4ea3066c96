-- ===== src/Step/Tests.antt =====
-- Concrete programs for the theorems on steps and timeslices.
use rocket.Base.{
  ◌≡◌, refl, pos, negsuc, ◌+ℤ◌, ◌-ℤ◌, ◌≤ℤ◌, true, false, ◌==◌, if◌then◌else◌, arith, test_bit,
}
use rocket.Cpu.{M68kCpu, no_host, zero_cpu, ok, sr_s}
use rocket.Bus.{memory_word, memory_long}
use rocket.Core.{takes_interrupt}
use rocket.Exception.Entry.{IsReady}
use rocket.Step.Run.{m68k_step, m68k_execute}
use rocket.Step.Fetch.{IsAt}
use rocket.Step.Idle.{IsIdle, m68k_execute-IsIdle}
use rocket.Step.Nops.{RunsNops, m68k_execute-nops}
use rocket.Step.Trap.{line_a, m68k_step-Unassigned}

-- Stopped, with seven cycles left over.
abbrev resting : M68kCpu
resting = record zero_cpu { stopped = true; sr = 0x2700; cycles_remaining = pos 7 }

quiet : takes_interrupt resting ≡ false
unfolding takes_interrupt
quiet = refl

m68k_execute-IsIdle_example :
    (c' : M68kCpu) × (m68k_execute 10 (pos 10) no_host resting ≡ (ok (pos 20), c'))
    × IsIdle resting c'
    × (c'.cycles_remaining ≡ negsuc 2)
    × (c'.cycles_remaining ≤ℤ pos 0)
unfolding ◌+ℤ◌ ◌-ℤ◌
m68k_execute-IsIdle_example =
    m68k_execute-IsIdle 10 (pos 10) no_host resting refl quiet (omega arith)

-- NOP words from 0x1000 on.
abbrev sled : M68kCpu
sled = record zero_cpu {
  memory = λ a. (if test_bit 0 a then 0x71 else 0x4E);
  memory_size = 0x8000;
  sr = 0x2700;
  pc = 0x1000;
}

sled-RunsNops : RunsNops sled 0x1008 4 sled
unfolding takes_interrupt test_bit memory_word
sled-RunsNops = record {
  running = refl;
  quiet = refl;
  untraced = refl;
  even = refl;
  pc_end = refl;
  bound = omega arith;
  small = omega arith;
  nops = λ j lt. ground arith;
  sr = refl;
  d_regs = refl;
  a_regs = refl;
  memory = refl;
}

m68k_execute-nops_example :
    (c' : M68kCpu) × (m68k_execute 5 (pos 10) no_host sled ≡ (ok (pos 12), c'))
    × (c'.pc ≡ 0x1006)
    × (c'.sr ≡ 0x2700)
    × (c'.d_regs ≡ λ i. 0)
    × (c'.a_regs ≡ λ i. 0)
    × (c'.memory ≡ sled.memory)
unfolding ◌+ℤ◌
m68k_execute-nops_example = m68k_execute-nops 5 1 (pos 10) sled sled-RunsNops (omega arith)

-- A user program at an opcode of line A, its vector at 0x28.
abbrev caller : M68kCpu
caller = record zero_cpu {
  memory = λ a.
      (if a == 0x2000 then 0xA1 else if a == 0x2001 then 0x23 else if a == 0x2A then 0x40 else 0);
  memory_size = 0x10000;
  sr = 0x0004;
  pc = 0x2000;
  ssp = 0x1000;
}

caller-IsAt : IsAt 0xA123 caller
unfolding takes_interrupt memory_word
caller-IsAt = record { running = refl; quiet = refl; code = (omega arith, refl); word = refl }

caller-IsReady : IsReady 10 caller
unfolding test_bit
caller-IsReady = record {
  model = refl;
  low = omega arith;
  even = refl;
  bound = omega arith;
  small = omega arith;
  not_bus_error = ground arith;
  not_address_error = ground arith;
  table = (omega arith, refl);
}

m68k_step-Unassigned_example :
    (c' : M68kCpu) × (m68k_step no_host caller ≡ (ok tt, c'))
    × (c'.pc ≡ 0x4000)
    × (test_bit sr_s c'.sr ≡ true)
    × (c'.a_regs 7 ≡ 0xFFA)
    × (memory_word c' 0xFFA ≡ 0x0004)
    × (memory_long c' 0xFFC ≡ 0x2000)
    × (c'.d_regs ≡ λ i. 0)
    × (c'.cycles_remaining ≡ negsuc 33)
unfolding test_bit memory_long ◌-ℤ◌
m68k_step-Unassigned_example =
    m68k_step-Unassigned 0xA123 10 caller (line_a refl refl) caller-IsAt caller-IsReady refl
      (omega arith) refl
