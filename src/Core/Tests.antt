-- ===== src/Core/Tests.antt =====
-- Concrete contexts for the theorems on reset, interrupts and timeslices.
use rocket.Base.{shr, low_bits, ℕ, ◌<◌, ◌≡◌, refl, arith, pos, true, false, if◌then◌else◌, ◌==◌}
use rocket.Cpu.{M68kCpu, no_host, zero_cpu, ok}
use rocket.Bus.{memory_long}
use rocket.Exception.Guards.{no_host-IsPolite}
use rocket.Core.Lifecycle.{m68k_reset}
use rocket.Core.Interrupt.{m68k_set_irq, takes_interrupt, finish_interrupt, check_interrupts}
use rocket.Core.Service.{finish_interrupt-masks, m68k_set_irq-edge, check_interrupts-settled}
use rocket.Core.Startup.{m68k_reset-loads}

-- Vectors 0 and 1, and a request of level 5 at mask 3.
abbrev board : M68kCpu
board = record zero_cpu {
  memory = λ a. (if a == 2 then 0x10 else if a == 6 then 0x04 else 0);
  memory_size = 0x2000;
  sr = 0x2300;
  a_regs = λ i. (if i == 7 then 0x1000 else 0);
  irq_level = 5;
  target_cycles = pos 100;
  cycles_remaining = pos 40;
}

m68k_reset-loads_example :
    let (r, c') = m68k_reset no_host board in
    (r ≡ ok tt)
    × (c'.a_regs 7 ≡ 0x1000)
    × (c'.pc ≡ 0x0400)
    × (c'.sr ≡ 0x2700)
    × ((i : ℕ) → i < 8 → c'.d_regs i ≡ 0)
    × ((i : ℕ) → i < 7 → c'.a_regs i ≡ 0)
    × (takes_interrupt c' ≡ false)
    × (c'.stopped ≡ false)
    × (c'.trace_pending ≡ false)
    × (c'.vbr ≡ 0)
    × (c'.exception_depth ≡ 0)
    × (c'.in_address_error ≡ false)
    × (c'.in_bus_error ≡ false)
    × (c'.group0_fault ≡ false)
    × (c'.fault_valid ≡ false)
    × (c'.memory ≡ board.memory)
unfolding memory_long
m68k_reset-loads_example = m68k_reset-loads board (omega arith)

finish_interrupt-masks_example :
    let c' = finish_interrupt false 5 board in
    (low_bits (shr c'.sr 8) 3 ≡ 5)
    × (c'.nmi_pending ≡ false)
    × (c'.stopped ≡ false)
    × (c'.irq_level ≡ 5)
    × (takes_interrupt c' ≡ false)
finish_interrupt-masks_example = finish_interrupt-masks false board (omega arith)

m68k_set_irq-edge_example :
    (takes_interrupt (m68k_set_irq 7 (m68k_set_irq 5 board)) ≡ true)
    × (takes_interrupt
          (m68k_set_irq 7 (finish_interrupt false 7 (record board { irq_level = 7; sr = 0x2300 })))
        ≡ false)
m68k_set_irq-edge_example = m68k_set_irq-edge board 0x2300 5 false (ground arith)

check_interrupts-settled_example :
    let (r, c') = check_interrupts no_host board in
    (r ≡ ok (takes_interrupt board)) × (takes_interrupt c' ≡ false)
check_interrupts-settled_example = check_interrupts-settled no_host no_host-IsPolite refl board
