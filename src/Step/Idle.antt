-- ===== src/Step/Idle.antt =====
-- A stopped processor spends its timeslices (src/m68k/m68k.c: `m68k_step_ex`, `m68k_execute`).
use rocket.Base.{ℕ, ◌*◌, ◌≤◌, ◌≡◌, ◌∙◌, refl, ℤ, pos, ◌+ℤ◌, ◌-ℤ◌, ◌≤ℤ◌, true, false, int_laws}
use rocket.Cpu.{M68kCpu, Host, ok}
use rocket.Core.{takes_interrupt}
use rocket.Step.Run.{clear_guards, m68k_step_ex, m68k_step, m68k_execute}
use rocket.Step.Fetch.{check_interrupts-quiet, takes_interrupt-clear_guards}
use rocket.Step.Loop.{rounds, m68k_execute-rounds}

-- Four cycles of rest.
idled : M68kCpu → M68kCpu
unfolding clear_guards
idled c = record (clear_guards c) { cycles_remaining = c.cycles_remaining -ℤ pos 4 }

-- What a stopped processor keeps.
pub record IsIdle (c0 c : M68kCpu) : Type 0 where
  pub stopped : c.stopped ≡ true
  pub quiet : takes_interrupt c ≡ false
  pub pc : c.pc ≡ c0.pc
  pub sr : c.sr ≡ c0.sr
  pub d_regs : c.d_regs ≡ c0.d_regs
  pub a_regs : c.a_regs ≡ c0.a_regs
  pub memory : c.memory ≡ c0.memory

module _ (h : Host) (c0 : M68kCpu) where
  m68k_step-idle : (k : ℕ) (c : M68kCpu) → IsIdle c0 c → m68k_step h c ≡ (ok tt, idled c)
  unfolding m68k_step m68k_step_ex idled clear_guards
  m68k_step-idle k c idle =
      let quiet = takes_interrupt-clear_guards c ∙ idle.quiet in
      let checked = check_interrupts-quiet h (clear_guards c) quiet in
      rw checked (simp idle.stopped refl)

  idled-IsIdle : (k : ℕ) (c : M68kCpu) → IsIdle c0 c → IsIdle c0 (idled c)
  unfolding idled clear_guards takes_interrupt
  idled-IsIdle k c idle = record {
    stopped = idle.stopped;
    quiet = idle.quiet;
    pc = idle.pc;
    sr = idle.sr;
    d_regs = idle.d_regs;
    a_regs = idle.a_regs;
    memory = idle.memory;
  }

  idled-cost :
      (c : M68kCpu)
      → ((idled c).cycles_remaining ≡ c.cycles_remaining -ℤ pos 4)
        × ((idled c).target_cycles ≡ c.target_cycles)
  unfolding idled clear_guards
  idled-cost c = (refl, refl)

-- A stopped processor with no interrupt to take, under any host: `m68k_execute` returns after the
-- steps of four cycles that the budget needs, and answers their cycles, the budget rounded up to a
-- multiple of four or zero where it is not positive. It is still stopped; PC, SR, the registers and
-- the memory are as before, and the counter of remaining cycles has gone down by the answer, to zero
-- or below. Fuel for these steps is enough.
pub m68k_execute-IsIdle :
    (fuel : ℕ) (cycles : ℤ) (h : Host) (c : M68kCpu)
    → c.stopped ≡ true
    → takes_interrupt c ≡ false
    → rounds (c.cycles_remaining +ℤ cycles) ≤ fuel
    → let budget = c.cycles_remaining +ℤ cycles in
      (c' : M68kCpu) × (m68k_execute fuel cycles h c ≡ (ok (pos (4 * rounds budget)), c'))
      × IsIdle c c'
      × (c'.cycles_remaining ≡ budget -ℤ pos (4 * rounds budget))
      × (c'.cycles_remaining ≤ℤ pos 0)
unfolding takes_interrupt
m68k_execute-IsIdle fuel cycles h c stopped quiet le =
    let budget = c.cycles_remaining +ℤ cycles in
    let start : IsIdle c (record c {
      cycles_remaining = c.cycles_remaining +ℤ cycles;
      target_cycles = c.target_cycles +ℤ cycles;
    }) =
      record {
        stopped = stopped;
        quiet = quiet;
        pc = refl;
        sr = refl;
        d_regs = refl;
        a_regs = refl;
        memory = refl;
      } in
    let (c', ends, idle, spent) =
      m68k_execute-rounds h (λ k. IsIdle c) idled (m68k_step-idle h c) (idled-IsIdle h c)
        (idled-cost h c) fuel 0 cycles c start le in
    (c', ends, idle, spent, rw spent (omega int_laws))
