-- ===== src/Step/Fetch.antt =====
-- The start of a step without callbacks: no interrupt is taken, and the opcode is fetched from the
-- bound memory (src/m68k/m68k.c: `m68k_step_ex`).
use rocket.Base.{ℕ, ◌≡◌, ◌∙◌, refl, Bool, true, false, ⊤, test_bit, add32}
use rocket.Cpu.{M68kCpu, Host, size_word, no_host, ok, M, ◌>>=◌}
use rocket.Bus.{mask_address_24, memory_word}
use rocket.Bus.Memory.{Accessible, fetch-memory}
use rocket.Exception.{m68k_exception, m68k_fetch}
use rocket.Core.{takes_interrupt, check_interrupts}
use rocket.Step.Run.{
  clear_guards, step_opcode, finish_step, step_trapped, step_aborted, set_trap, step_running,
  m68k_step_ex, m68k_step,
}

pub check_interrupts-quiet :
    (h : Host) (c : M68kCpu) → takes_interrupt c ≡ false → check_interrupts h c ≡ (ok false, c)
unfolding check_interrupts
check_interrupts-quiet h c quiet = rw quiet refl

pub takes_interrupt-clear_guards :
    (c : M68kCpu) → takes_interrupt (clear_guards c) ≡ takes_interrupt c
unfolding takes_interrupt clear_guards
takes_interrupt-clear_guards c = refl

-- A running processor, no interrupt to take, and an opcode in bound memory at PC.
pub record IsAt (opcode : ℕ) (c : M68kCpu) : Type 0 where
  pub running : c.stopped ≡ false
  pub quiet : takes_interrupt c ≡ false
  pub code : Accessible size_word c.pc c.memory_size
  pub word : memory_word c (mask_address_24 c.pc) ≡ opcode

-- The context when the handler starts.
unfoldable pub fetched : ℕ → M68kCpu → M68kCpu
unfolding clear_guards
fetched opcode c = record (clear_guards c) {
  fault_trap_active = true;
  ppc = c.pc;
  fault_pc_valid = false;
  pc = add32 c.pc 2;
  ir = opcode;
}

-- The handler, and the end of the step.
abbrev pub executes : Bool → ℕ → M ⊤
executes trace_active opcode = step_opcode opcode >>= finish_step true trace_active

clear_guards-stopped : (c : M68kCpu) → (clear_guards c).stopped ≡ c.stopped
unfolding clear_guards
clear_guards-stopped c = refl

m68k_step-running :
    (h : Host) (c : M68kCpu)
    → c.stopped ≡ false
    → takes_interrupt c ≡ false
    → m68k_step h c ≡ step_running true h (clear_guards c)
unfolding m68k_step m68k_step_ex
m68k_step-running h c running quiet =
    let still = clear_guards-stopped c ∙ running in
    let checked =
      check_interrupts-quiet h (clear_guards c) (takes_interrupt-clear_guards c ∙ quiet) in
    rw (checked, still) refl

step_running-fetched :
    (opcode : ℕ) (c : M68kCpu)
    → IsAt opcode c
    → step_running true no_host (clear_guards c)
      ≡ set_trap step_aborted (executes (test_bit 15 c.sr) opcode) no_host (fetched opcode c)
unfolding step_running step_trapped set_trap m68k_fetch fetched clear_guards memory_word
step_running-fetched opcode c at =
    let armed = record (clear_guards c) {
      fault_trap_active = true;
      ppc = c.pc;
      fault_pc_valid = false;
    } in
    let read = fetch-memory m68k_exception armed at.code in rw (read, at.word) refl

pub m68k_step-fetched :
    (opcode : ℕ) (c : M68kCpu)
    → IsAt opcode c
    → m68k_step no_host c
      ≡ set_trap step_aborted (executes (test_bit 15 c.sr) opcode) no_host (fetched opcode c)
m68k_step-fetched opcode c at =
    m68k_step-running no_host c at.running at.quiet ∙ step_running-fetched opcode c at
