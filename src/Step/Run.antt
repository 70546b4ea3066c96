-- ===== src/Step/Run.antt =====
-- One instruction, and the loop over a timeslice. `setjmp` and `longjmp` are a handler of the
-- `longjmp` outcome.
use rocket.Base.{
  ℕ, ℤ, zero, suc, pos, ◌+ℤ◌, ◌-ℤ◌, ltb_ℤ, Bool, true, false, not, ◌&&◌, ◌||◌, Option, none, some,
  ⊤, ◌==◌, if◌then◌else◌, bit_and, test_bit, add32,
}
use rocket.Cpu.{
  M68kCpu, Outcome, ok, longjmp, out_of_fuel, M, pure, gets, modify, asks, when, spend, ◌>>=◌, ◌>>◌,
}
use rocket.Exception.{m68k_exception, m68k_fetch, m68k_raise_odd_target_fault}
use rocket.Core.{check_interrupts, m68k_cycles_run}
use rocket.Step.Immediate.{step_line_0, step_move, step_line_5, step_line_6, step_line_7}
use rocket.Step.Miscellaneous.{step_line_4}
use rocket.Step.Dyadic.{
  step_line_8, step_line_9, step_line_b, step_line_c, step_line_d, step_line_e,
}

-- The re-entrancy guards, which are no architectural state.
unfoldable pub clear_guards : M68kCpu → M68kCpu
clear_guards c = record c {
  exception_thrown = 0;
  in_address_error = false;
  in_bus_error = false;
  fault_program_access = false;
  fault_valid = false;
  group0_fault = false;
  fault_trap_active = false;
}

-- The lines of opcodes; lines A and F and what is left go to their vectors.
unfoldable pub step_line : ℕ → M (Option ℕ)
step_line opcode =
    let line = bit_and opcode 0xF000 in
    if line == 0x0000
    then step_line_0 opcode
    else if bit_and opcode 0xC000 == 0x0000
    then step_move opcode
    else if line == 0x4000
    then step_line_4 opcode
    else if line == 0x5000
    then step_line_5 opcode
    else if line == 0x6000
    then step_line_6 opcode
    else if line == 0x7000
    then step_line_7 opcode
    else if line == 0x8000
    then step_line_8 opcode
    else if line == 0x9000
    then step_line_9 opcode
    else if line == 0xB000
    then step_line_b opcode
    else if line == 0xC000
    then step_line_c opcode
    else if line == 0xD000
    then step_line_d opcode
    else if line == 0xE000
    then step_line_e opcode
    else pure none

unfoldable pub unassigned_vector : ℕ → ℕ
unassigned_vector opcode =
    let line = bit_and opcode 0xF000 in
    if line == 0xA000 then 10 else if line == 0xF000 then 11 else 4

unfoldable pub step_opcode : ℕ → M ℕ
step_opcode opcode = do
  cost ← step_line opcode
  elim cost [ some n ↦ pure n | none ↦ do m68k_exception (unassigned_vector opcode); pure 34 ]

-- An exception of the instruction replaces its cost.
unfoldable pub step_cost : ℕ → ℕ → ℕ
step_cost thrown cycles =
    if thrown == 4
    then 34
    else if thrown == 5
    then 38
    else if thrown == 6
    then 0
    else if thrown == 7 || thrown == 8
    then 34
    else cycles

-- The label `done`: an odd target faults, and tracing follows.
unfoldable pub finish_step : Bool → Bool → ℕ → M ⊤
finish_step check_exceptions trace_active cycles = do
  modify (λ c. record c { fault_trap_active = false })
  c ← gets (λ c. c)
  when (test_bit 0 c.pc && not c.in_address_error)
      (m68k_raise_odd_target_fault c.pc (add32 c.ppc 2))
  d ← gets (λ c. c)
  when (not d.group0_fault && check_exceptions && trace_active && not d.stopped) (m68k_exception 9)
  spend (step_cost c.exception_thrown cycles)

-- From the armed trap on.
unfoldable pub step_trapped : Bool → Bool → M ⊤
step_trapped check_exceptions trace_active = do
  modify (λ c. record c { fault_trap_active = true; ppc = c.pc; fault_pc_valid = false })
  opcode ← m68k_fetch
  group0_fault ← gets (λ c. c.group0_fault)
  if group0_fault then (do modify (λ c. record c { fault_trap_active = false }); spend 54) else (do
    modify (λ c. record c { ir = opcode })
    cycles ← step_opcode opcode
    finish_step check_exceptions trace_active cycles)

-- What follows a jump to the trap.
unfoldable pub step_aborted : M ⊤
step_aborted = do
  modify (λ c. record c { fault_trap_active = false })
  group0_fault ← gets (λ c. c.group0_fault)
  spend (if group0_fault then 54 else 34)

abbrev pub on_longjmp : M ⊤ → Outcome ⊤ → M ⊤
on_longjmp handler (ok tt) h c = (ok tt, c)
on_longjmp handler longjmp h c = handler h c
on_longjmp handler out_of_fuel h c = (out_of_fuel, c)

-- `if (setjmp(trap) != 0) { handler; return; } body`.
unfoldable pub set_trap : M ⊤ → M ⊤ → M ⊤
set_trap handler body h c = let (r, c') = body h c in on_longjmp handler r h c'

unfoldable pub step_running : Bool → M ⊤
step_running check_exceptions = do
  trace_active ← gets (λ c. test_bit 15 c.sr)
  cb ← asks (λ h. h.instr_hook_cb)
  pc ← gets (λ c. c.pc)
  elim cb [ none ↦ pure tt | some f ↦ modify (f pc) ]
  set_trap step_aborted (step_trapped check_exceptions trace_active)

unfoldable pub m68k_step_ex : Bool → M ⊤
m68k_step_ex check_exceptions = do
  modify clear_guards
  stopped ← gets (λ c. c.stopped)
  serviced ← (if check_exceptions then check_interrupts else pure false)
  if serviced then spend 44 else if stopped then spend 4 else step_running check_exceptions

unfoldable pub m68k_step : M ⊤
m68k_step = m68k_step_ex true

-- `while (cpu->cycles_remaining > 0) m68k_step(cpu)`, on fuel.
unfoldable pub execute_loop : ℕ → M ⊤
execute_loop zero h c = if ltb_ℤ (pos 0) c.cycles_remaining then (out_of_fuel, c) else (ok tt, c)
execute_loop (suc n) h c =
    let rest = (m68k_step >> execute_loop n) h c in
    if ltb_ℤ (pos 0) c.cycles_remaining then rest else (ok tt, c)

unfoldable pub m68k_execute : ℕ → ℤ → M ℤ
m68k_execute fuel cycles_requested = do
  modify (λ c. record c {
    cycles_remaining = c.cycles_remaining +ℤ cycles_requested;
    target_cycles = c.target_cycles +ℤ cycles_requested;
  })
  start_cycles_run ← gets m68k_cycles_run
  execute_loop fuel
  gets (λ c. m68k_cycles_run c -ℤ start_cycles_run)

unfoldable pub m68k_cycles_remaining : M68kCpu → ℤ
m68k_cycles_remaining c = c.cycles_remaining
