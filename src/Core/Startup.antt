-- ===== src/Core/Startup.antt =====
-- What a reset leaves (src/m68k/m68k.c: `m68k_reset`).
use rocket.Base.{ℕ, ◌<◌, ◌≤◌, ◌≡◌, refl, false, arith, update}
use rocket.Cpu.{M68kCpu, size_long, no_host, ok}
use rocket.Bus.{memory_long, read_size}
use rocket.Bus.Memory.{read_size-memory}
use rocket.Exception.{m68k_exception, m68k_read_32}
use rocket.Core.Lifecycle.{reset_state, m68k_reset}
use rocket.Core.Interrupt.{takes_interrupt}

-- Without callbacks and with at least eight bytes of bound memory, reset returns in supervisor mode
-- with interrupts masked, running, the stack pointer and the PC from the first two vectors, the other
-- data and address registers and VBR zero, no interrupt to take, no trace pending, no exception in
-- progress (the nesting depth and the two re-entry flags), no group 0 fault and no valid fault
-- address, and the memory as it was.
pub m68k_reset-loads :
    (c : M68kCpu)
    → 8 ≤ c.memory_size
    → let (r, c') = m68k_reset no_host c in
      (r ≡ ok tt)
      × (c'.a_regs 7 ≡ memory_long c 0)
      × (c'.pc ≡ memory_long c 4)
      × (c'.sr ≡ 0x2700)
      × ((i : ℕ) → i < 8 → c'.d_regs i ≡ 0)
      × ((i : ℕ) → i < 7 → c'.a_regs i ≡ 0)
      × (takes_interrupt c' ≡ false)
      × (c'.stopped ≡ false)
      × (c'.trace_pending ≡ false)
      × (c'.vbr ≡ 0)
      × (c'.exception_depth ≡ 0)
      × (c'.in_address_error ≡ false)
      × (c'.in_bus_error ≡ false)
      × (c'.group0_fault ≡ false)
      × (c'.fault_valid ≡ false)
      × (c'.memory ≡ c.memory)
unfolding m68k_reset m68k_read_32 reset_state takes_interrupt read_size memory_long
m68k_reset-loads c bound =
    let c1 = reset_state c in
    let r0 = read_size-memory m68k_exception size_long 0 c1 (omega arith, refl) in
    let c2 = record c1 { a_regs = update c1.a_regs 7 (memory_long c1 0) } in
    let r4 = read_size-memory m68k_exception size_long 4 c2 (omega arith, refl) in
    rw (r0, r4)
      (
        refl,
        refl,
        refl,
        refl,
        λ i lt. ground arith,
        λ i lt. ground arith,
        refl,
        refl,
        refl,
        refl,
        refl,
        refl,
        refl,
        refl,
        refl,
        refl,
      )
