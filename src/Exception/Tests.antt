-- ===== src/Exception/Tests.antt =====
-- Concrete contexts for the theorems on exceptions.
use rocket.Base.{ℕ, ◌==◌, ◌/◌, ◌%◌, ◌^◌, ◌<◌, ◌≡◌, true, false, arith, test_bit, if◌then◌else◌}
use rocket.Cpu.{M68kCpu, no_host, zero_cpu, ok}
use rocket.Bus.{capture_access_fault}
use rocket.Exception.{m68k_exception, set_sr}
use rocket.Exception.Guards.{no_host-IsPolite}
use rocket.Exception.Settles.{Completes, m68k_exception-Completes}
use rocket.Exception.Stacks.{user_stack, supervisor_stack, set_sr-stacks}
use rocket.Exception.FaultWord.{capture_access_fault-word}

-- A supervisor whose stack pointer is odd, so that the frame itself faults.
abbrev odd_stack : M68kCpu
odd_stack = record zero_cpu {
  memory_size = 0x1000;
  sr = 0x2700;
  pc = 0x400;
  a_regs = λ i. (if i == 7 then 0x801 else 0);
}

m68k_exception-Completes_example : Completes odd_stack (m68k_exception 4 no_host odd_stack)
m68k_exception-Completes_example = m68k_exception-Completes no_host no_host-IsPolite 4 odd_stack

-- RTE to user mode: A7 becomes the user's stack pointer.
set_sr-stacks_example :
    let c = record odd_stack { usp = 0x600 } in
    ((set_sr 0x0004 c).sr ≡ 4)
    × (user_stack (set_sr 0x0004 c) ≡ 0x600)
    × (supervisor_stack (set_sr 0x0004 c) ≡ 0x801)
    × ((i : ℕ) → i < 7 → (set_sr 0x0004 c).a_regs i ≡ c.a_regs i)
unfolding test_bit
set_sr-stacks_example = set_sr-stacks 0x0004 (record odd_stack { usp = 0x600 })

-- A data read in supervisor mode.
capture_access_fault-word_example :
    let (r, c') =
      capture_access_fault 0x1234 false false no_host (record odd_stack { ir = 0x4E75 }) in
    (r ≡ ok tt)
    × (c'.fault_address ≡ 0x1234)
    × (c'.fault_ir ≡ 0x4E75)
    × (c'.fault_ssw / 2 ^ 5 ≡ 0x4E75 / 2 ^ 5)
    × (c'.fault_ssw / 2 ^ 4 % 2 ≡ 1)
    × (c'.fault_ssw % 2 ^ 4 ≡ 5)
    × (c'.fault_valid ≡ true)
unfolding test_bit
capture_access_fault-word_example =
    capture_access_fault-word 0x1234 false false no_host (record odd_stack { ir = 0x4E75 })
      (omega arith)
