-- ===== src/Step/Trap.antt =====
-- Opcodes that the decoder assigns to no instruction (src/m68k/m68k.c: `m68k_step_ex`).
use rocket.Base.{
  ℕ, ◌+◌, ◌-◌, ◌*◌, ◌/◌, ◌%◌, ◌^◌, ◌<◌, ◌≤◌, ◌≡◌, ◌∙◌, ◌⊎◌, refl, sym, ap, inl, inr, ℤ, pos, ◌-ℤ◌,
  true, false, none, ⊤, arith, test_bit, bit_and, bit_and_high, add32,
}
use rocket.Cpu.{M68kCpu, Host, Outcome, size_word, size_long, no_host, ok, sr_s}
use rocket.Bus.{mask_address_24, memory_word, memory_long}
use rocket.Bus.Memory.{stored-elsewhere}
use rocket.Exception.{m68k_exception, frame_pc, set_sr, enter_exception, clear_fault_latches}
use rocket.Exception.Stacks.{supervisor_stack}
use rocket.Exception.Frame.{framed, pushed, framed-sr, framed-pc}
use rocket.Exception.Entry.{
  IsReady, taken, m68k_exception-memory, enter_exception-stacks, enter_exception-rest,
}
use rocket.Step.Immediate.{step_line_7}
use rocket.Step.Run.{
  clear_guards, step_line, unassigned_vector, step_opcode, step_cost, finish_step, set_trap,
  m68k_step,
}
use rocket.Step.Fetch.{IsAt, fetched, m68k_step-fetched}

-- The opcodes of lines A and F, and those of line 7 with bit 8 set, with their vectors.
pub data Unassigned (opcode vector : ℕ) : Type 0 where
  line_a : opcode / 2 ^ 12 ≡ 10 → vector ≡ 10 → Unassigned opcode vector
  line_f : opcode / 2 ^ 12 ≡ 15 → vector ≡ 11 → Unassigned opcode vector
  line_7 : opcode / 2 ^ 12 ≡ 7 → test_bit 8 opcode ≡ true → vector ≡ 4 → Unassigned opcode vector

line_bits :
    (opcode line : ℕ) → opcode / 2 ^ 12 ≡ line → bit_and opcode 0xF000 ≡ bit_and line 15 * 2 ^ 12
line_bits opcode line e = bit_and_high 12 15 opcode ∙ ap (λ (t : ℕ). bit_and t 15 * 2 ^ 12) e

group_bits :
    (opcode line : ℕ) → opcode / 2 ^ 12 ≡ line → bit_and opcode 0xC000 ≡ bit_and line 12 * 2 ^ 12
group_bits opcode line e = bit_and_high 12 12 opcode ∙ ap (λ (t : ℕ). bit_and t 12 * 2 ^ 12) e

step_line-Unassigned :
    (opcode vector : ℕ) (h : Host) (c : M68kCpu)
    → Unassigned opcode vector
    → (step_line opcode h c ≡ (ok none, c)) × (unassigned_vector opcode ≡ vector)
unfolding step_line step_line_7 unassigned_vector
step_line-Unassigned opcode vector h c (line_a e v) =
    let line = line_bits opcode 10 e in rw (line, group_bits opcode 10 e) (refl, sym v)
step_line-Unassigned opcode vector h c (line_f e v) =
    let line = line_bits opcode 15 e in rw (line, group_bits opcode 15 e) (refl, sym v)
step_line-Unassigned opcode vector h c (line_7 e high v) =
    let line = line_bits opcode 7 e in rw (line, group_bits opcode 7 e, high) (refl, sym v)

step_opcode-Unassigned :
    (opcode vector : ℕ) (c d : M68kCpu)
    → Unassigned opcode vector
    → m68k_exception vector no_host c ≡ (ok tt, d)
    → step_opcode opcode no_host c ≡ (ok 34, d)
unfolding step_opcode
step_opcode-Unassigned opcode vector c d u raised =
    let (missing, number) = step_line-Unassigned opcode vector no_host c u in
    rw (missing, number, raised) refl

-- The end of a step whose exception has left an even PC, without tracing.
finish_step-even :
    (cycles : ℕ) (d : M68kCpu)
    → d.pc % 2 ≡ 0
    → finish_step true false cycles no_host d ≡ (
      ok tt,
      record d {
        fault_trap_active = false;
        cycles_remaining = d.cycles_remaining -ℤ pos (step_cost d.exception_thrown cycles);
      },
    )
unfolding finish_step test_bit
finish_step-even cycles d even = ground arith

enter_exception-thrown :
    (vector : ℕ) (c : M68kCpu)
    → c.exception_thrown ≡ 0
    → ((enter_exception vector c).exception_thrown ≡ vector)
      × ((enter_exception vector c).cycles_remaining ≡ c.cycles_remaining)
unfolding enter_exception set_sr
enter_exception-thrown vector c none_yet = (ground arith, ground arith)

-- An address below the frame keeps its long.
memory_long-framed :
    (pc sr sp a : ℕ) (c : M68kCpu)
    → 6 ≤ sp
    → sp < 2 ^ 24
    → a + 4 ≤ sp - 6
    → memory_long (framed pc sr sp c) a ≡ memory_long c a
unfolding memory_long
memory_long-framed pc sr sp a c low small below =
    let at = λ (i : ℕ) (lt : i < 4).
      stored-elsewhere size_word (mask_address_24 (sp - 6)) sr (a + i)
        (pushed size_long (sp - 4) pc c).memory (inl (omega arith))
      ∙ stored-elsewhere size_long (mask_address_24 (sp - 4)) pc (a + i) c.memory
          (inl (omega arith)) in
    ground (arith, at 0, at 1, at 2, at 3)

Unassigned-vector :
    (opcode vector : ℕ) → Unassigned opcode vector → (vector ≡ 4) ⊎ ((vector ≡ 10) ⊎ (vector ≡ 11))
Unassigned-vector opcode vector (line_a e v) = inr (inl v)
Unassigned-vector opcode vector (line_f e v) = inr (inr v)
Unassigned-vector opcode vector (line_7 e high v) = inl v

fetched-IsReady :
    (opcode vector : ℕ) (c : M68kCpu) → IsReady vector c → IsReady vector (fetched opcode c)
unfolding fetched clear_guards
fetched-IsReady opcode vector c r = record {
  model = r.model;
  low = r.low;
  even = r.even;
  bound = r.bound;
  small = r.small;
  not_bus_error = r.not_bus_error;
  not_address_error = r.not_address_error;
  table = r.table;
}

-- The frame of an unassigned opcode holds the address of the opcode itself.
fetched-frame_pc :
    (opcode vector : ℕ) (c : M68kCpu)
    → Unassigned opcode vector
    → frame_pc vector (fetched opcode c) ≡ c.pc
unfolding frame_pc fetched clear_guards
fetched-frame_pc opcode vector c u = ground (arith, Unassigned-vector opcode vector u)

step_cost-Unassigned : (opcode vector : ℕ) → Unassigned opcode vector → step_cost vector 34 ≡ 34
unfolding step_cost
step_cost-Unassigned opcode vector u = ground (arith, Unassigned-vector opcode vector u)

-- The context after the trap.
abbrev trapped : ℕ → ℕ → M68kCpu → M68kCpu
trapped opcode vector c =
    let d =
      taken vector c.pc c.sr (supervisor_stack c) (enter_exception vector (fetched opcode c)) in
    record d { fault_trap_active = false; cycles_remaining = d.cycles_remaining -ℤ pos 34 }

module _ (opcode vector : ℕ) (c : M68kCpu) (unassigned : Unassigned opcode vector)
    (at : IsAt opcode c) (ready : IsReady vector c) (untraced : test_bit 15 c.sr ≡ false)
    (clear : mask_address_24 (add32 c.vbr (vector * 4)) + 4 ≤ supervisor_stack c - 6)
    (even : memory_long c (mask_address_24 (add32 c.vbr (vector * 4))) % 2 ≡ 0) where
  trapped-pc :
      (trapped opcode vector c).pc ≡ memory_long c (mask_address_24 (add32 c.vbr (vector * 4)))
  unfolding clear_fault_latches fetched clear_guards memory_long
  trapped-pc =
      let (model, memory, memory_size, vbr, d_regs, depth) =
        enter_exception-rest vector (fetched opcode c) in
      rw vbr (
        memory_long-framed c.pc c.sr (supervisor_stack c)
          (mask_address_24 (add32 c.vbr (vector * 4))) (enter_exception vector (fetched opcode c))
          ready.low ready.small clear
        ∙ rw memory refl)

  raised : m68k_exception vector no_host (fetched opcode c) ≡ (
    ok tt,
    taken vector c.pc c.sr (supervisor_stack c) (enter_exception vector (fetched opcode c)),
  )
  unfolding fetched clear_guards
  raised =
      rw (fetched-frame_pc opcode vector c unassigned) at
        (m68k_exception-memory vector (fetched opcode c) (fetched-IsReady opcode vector c ready))

  trapped-cost : step_cost (trapped opcode vector c).exception_thrown 34 ≡ 34
  unfolding clear_fault_latches fetched clear_guards
  trapped-cost =
      let (thrown, cycles) = enter_exception-thrown vector (fetched opcode c) refl in
      ap (λ (v : ℕ). step_cost v 34) thrown ∙ step_cost-Unassigned opcode vector unassigned

  m68k_step-trapped : m68k_step no_host c ≡ (ok tt, trapped opcode vector c)
  unfolding set_trap
  m68k_step-trapped =
      let c1 = fetched opcode c in
      let d = taken vector c.pc c.sr (supervisor_stack c) (enter_exception vector c1) in
      let run = step_opcode-Unassigned opcode vector c1 d unassigned raised in
      let end = finish_step-even 34 d (ap (λ (t : ℕ). t % 2) trapped-pc ∙ even) in
      let charged : ℕ → Outcome ⊤ × M68kCpu = λ n. (
        ok tt,
        record d { fault_trap_active = false; cycles_remaining = d.cycles_remaining -ℤ pos n },
      ) in
      m68k_step-fetched opcode c at ∙ rw (untraced, run, end) (ap charged trapped-cost)

-- On a 68000 that is not stopped, without callbacks, tracing or interrupts, at an opcode of line A, of
-- line F, or of line 7 with bit 8 set, with six free bytes of bound memory below the even supervisor
-- stack pointer, which is below 2^24, and with the vector below them, bound and even: one step takes vector 10, 11 or 4. It
-- continues at the vector's address in supervisor mode, the frame holds the status register and the
-- address of the opcode, the stack pointer is six lower, the data registers are as before, and the
-- step costs 34 cycles.
pub m68k_step-Unassigned :
    (opcode vector : ℕ) (c : M68kCpu)
    → Unassigned opcode vector
    → IsAt opcode c
    → IsReady vector c
    → test_bit 15 c.sr ≡ false
    → mask_address_24 (add32 c.vbr (vector * 4)) + 4 ≤ supervisor_stack c - 6
    → memory_long c (mask_address_24 (add32 c.vbr (vector * 4))) % 2 ≡ 0
    → let sp = supervisor_stack c in
      (c' : M68kCpu) × (m68k_step no_host c ≡ (ok tt, c'))
      × (c'.pc ≡ memory_long c (mask_address_24 (add32 c.vbr (vector * 4))))
      × (test_bit sr_s c'.sr ≡ true)
      × (c'.a_regs 7 ≡ sp - 6)
      × (memory_word c' (mask_address_24 (sp - 6)) ≡ c.sr % 2 ^ 16)
      × (memory_long c' (mask_address_24 (sp - 4)) ≡ c.pc % 2 ^ 32)
      × (c'.d_regs ≡ c.d_regs)
      × (c'.cycles_remaining ≡ c.cycles_remaining -ℤ pos 34)
unfolding clear_fault_latches fetched clear_guards memory_word memory_long
m68k_step-Unassigned opcode vector c unassigned at ready untraced clear even =
    let c1 = enter_exception vector (fetched opcode c) in
    let sp = supervisor_stack c in
    let stacks = enter_exception-stacks vector (fetched opcode c) in
    let (model, memory, memory_size, vbr, d_regs, depth) =
      enter_exception-rest vector (fetched opcode c) in
    let (thrown, cycles) = enter_exception-thrown vector (fetched opcode c) refl in
    (
      trapped opcode vector c,
      m68k_step-trapped opcode vector c unassigned at ready untraced clear even,
      trapped-pc opcode vector c unassigned at ready untraced clear even,
      stacks.0,
      refl,
      framed-sr c.pc c.sr sp c1 ready.low ready.small,
      framed-pc c.pc c.sr sp c1 ready.low ready.small,
      d_regs,
      ap (λ (z : ℤ). z -ℤ pos 34) cycles,
    )
