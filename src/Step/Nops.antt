-- ===== src/Step/Nops.antt =====
-- A timeslice over a run of NOP instructions: fetch, decoder and loop together
-- (src/m68k/m68k.c: `m68k_fetch`, `m68k_step_ex`, `m68k_execute`).
use rocket.Base.{
  ℕ, suc, ◌+◌, ◌*◌, ◌%◌, ◌^◌, ◌<◌, ◌≤◌, ◌≡◌, ◌∙◌, refl, sym, ap, ℤ, pos, ◌+ℤ◌, ◌-ℤ◌, false, arith,
  test_bit, add32,
}
use rocket.Cpu.{M68kCpu, no_host, ok}
use rocket.Bus.{mask_address_24, memory_word}
use rocket.Core.{takes_interrupt}
use rocket.Step.Miscellaneous.{step_system, step_line_4}
use rocket.Step.Run.{
  clear_guards, step_line, step_opcode, step_cost, finish_step, step_aborted, set_trap, m68k_step,
  m68k_execute,
}
use rocket.Step.Fetch.{IsAt, fetched, executes, m68k_step-fetched}
use rocket.Step.Loop.{rounds, m68k_execute-rounds}

-- The context after a NOP.
passed : M68kCpu → M68kCpu
unfolding fetched
passed c = record (fetched 0x4E71 c) {
  fault_trap_active = false;
  cycles_remaining = c.cycles_remaining -ℤ pos 4;
}

-- A processor without tracing or interrupts that has `k` more NOP words up to the address `end`, and
-- what it keeps of `c0`.
pub record RunsNops (c0 : M68kCpu) (end k : ℕ) (c : M68kCpu) : Type 0 where
  pub running : c.stopped ≡ false
  pub quiet : takes_interrupt c ≡ false
  pub untraced : test_bit 15 c.sr ≡ false
  pub even : c.pc % 2 ≡ 0
  pub pc_end : c.pc + 2 * k ≡ end
  pub bound : end ≤ c.memory_size
  pub small : end < 2 ^ 24
  pub nops : (j : ℕ) → j < k → memory_word c (c.pc + 2 * j) ≡ 0x4E71
  pub sr : c.sr ≡ c0.sr
  pub d_regs : c.d_regs ≡ c0.d_regs
  pub a_regs : c.a_regs ≡ c0.a_regs
  pub memory : c.memory ≡ c0.memory

executes-nop :
    (c : M68kCpu)
    → c.pc % 2 ≡ 0
    → set_trap step_aborted (executes false 0x4E71) no_host (fetched 0x4E71 c) ≡ (ok tt, passed c)
unfolding set_trap step_opcode step_line step_line_4 step_system finish_step step_cost passed
    fetched clear_guards test_bit
executes-nop c even = let still : add32 c.pc 2 % 2 ≡ 0 = omega arith in ground arith

m68k_step-nop :
    (c : M68kCpu)
    → IsAt 0x4E71 c
    → test_bit 15 c.sr ≡ false
    → m68k_step no_host c ≡ (ok tt, passed c)
m68k_step-nop c at untraced = m68k_step-fetched 0x4E71 c at ∙ rw untraced (executes-nop c at.code.1)

module _ (c0 : M68kCpu) (end : ℕ) where
  RunsNops-IsAt : (k : ℕ) (c : M68kCpu) → RunsNops c0 end (suc k) c → IsAt 0x4E71 c
  RunsNops-IsAt k c r =
      let here : c.pc + 2 * 0 ≡ c.pc = omega arith in
      let masked : mask_address_24 c.pc ≡ c.pc = omega (arith, r.pc_end, r.small) in
      record {
        running = r.running;
        quiet = r.quiet;
        code = (omega (arith, r.pc_end, r.small, r.bound), r.even);
        word = rw masked (ap (λ (a : ℕ). memory_word c a) (sym here) ∙ r.nops 0 (omega arith));
      }

  passed-RunsNops : (k : ℕ) (c : M68kCpu) → RunsNops c0 end (suc k) c → RunsNops c0 end k (passed c)
  unfolding passed fetched clear_guards takes_interrupt memory_word
  passed-RunsNops k c r =
      let next : add32 c.pc 2 ≡ c.pc + 2 = omega (arith, r.pc_end, r.small) in
      record {
        running = r.running;
        quiet = r.quiet;
        untraced = r.untraced;
        even = omega (arith, next, r.even);
        pc_end = omega (arith, next, r.pc_end);
        bound = r.bound;
        small = r.small;
        nops = λ j lt.
            let e : add32 c.pc 2 + 2 * j ≡ c.pc + 2 * suc j = omega (arith, next) in
            rw e (r.nops (suc j) (omega arith));
        sr = r.sr;
        d_regs = r.d_regs;
        a_regs = r.a_regs;
        memory = r.memory;
      }

passed-cost :
    (c : M68kCpu)
    → ((passed c).cycles_remaining ≡ c.cycles_remaining -ℤ pos 4)
      × ((passed c).target_cycles ≡ c.target_cycles)
unfolding passed fetched clear_guards
passed-cost c = (refl, refl)

-- On a processor that is not stopped, without callbacks, tracing or interrupts, with as many NOP words
-- in bound memory at PC as the budget has rounds of four cycles, and perhaps `k` more, all of them
-- below the address 2^24: `m68k_execute` returns after these rounds, each of
-- which has fetched, decoded and passed one NOP. PC has advanced by two for each, the answer is four
-- cycles for each, and SR, the registers and the memory are as before. Fuel for these steps is enough.
pub m68k_execute-nops :
    (fuel k : ℕ) (cycles : ℤ) (c : M68kCpu)
    → RunsNops c
        (c.pc + 2 * (rounds (c.cycles_remaining +ℤ cycles) + k))
        (rounds (c.cycles_remaining +ℤ cycles) + k)
        c
    → rounds (c.cycles_remaining +ℤ cycles) ≤ fuel
    → let n = rounds (c.cycles_remaining +ℤ cycles) in
      (c' : M68kCpu) × (m68k_execute fuel cycles no_host c ≡ (ok (pos (4 * n)), c'))
      × (c'.pc ≡ c.pc + 2 * n)
      × (c'.sr ≡ c.sr)
      × (c'.d_regs ≡ c.d_regs)
      × (c'.a_regs ≡ c.a_regs)
      × (c'.memory ≡ c.memory)
unfolding takes_interrupt memory_word
m68k_execute-nops fuel k cycles c r le =
    let n = rounds (c.cycles_remaining +ℤ cycles) in
    let end = c.pc + 2 * (n + k) in
    let start = record c {
      cycles_remaining = c.cycles_remaining +ℤ cycles;
      target_cycles = c.target_cycles +ℤ cycles;
    } in
    let begins : RunsNops c end (n + k) start = record {
      running = r.running;
      quiet = r.quiet;
      untraced = r.untraced;
      even = r.even;
      pc_end = r.pc_end;
      bound = r.bound;
      small = r.small;
      nops = r.nops;
      sr = refl;
      d_regs = refl;
      a_regs = refl;
      memory = refl;
    } in
    let (c', ends, left, spent) =
      m68k_execute-rounds no_host (RunsNops c end) passed
        (λ j d p. m68k_step-nop d (RunsNops-IsAt c end j d p) p.untraced) (passed-RunsNops c end)
        passed-cost fuel k cycles c begins le in
    (c', ends, omega (arith, left.pc_end), left.sr, left.d_regs, left.a_regs, left.memory)
