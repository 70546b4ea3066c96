-- ===== src/Move/Movem.antt =====
-- Registers that one MOVEM instruction saves and another restores (src/m68k/ops_move.c:
-- `m68k_exec_movem`).
use rocket.Base.{
  ℕ, ◌+◌, ◌%◌, ◌^◌, ◌<◌, ◌≤◌, ◌≡◌, ◌∙◌, refl, ℤ, pos, ◌+ℤ◌, ◌-ℤ◌, Bool, true, false, ◌&&◌, arith,
  ltb, if◌then◌else◌, test_bit, add32, fun_ext,
}
use rocket.Cpu.{M68kCpu, size_long, no_host, ok}
use rocket.Bus.{mask_address_24, memory_word}
use rocket.Bus.Memory.{fetch-memory}
use rocket.Exception.{m68k_exception, m68k_fetch}
use rocket.Ea.{movem_ea_cycles, m68k_calc_ea_addr_nocost, calc_ea_ex, set_fault_pc, memory_operand}
use rocket.Decode.{mode_field, ea_reg_field}
use rocket.Move.Multiple.{
  mask_register, movem_to_registers, movem_to_memory, bad_movem_ea, movem_address, exec_movem,
}
use rocket.Move.Transfer.{saved, saved-below, Room, movem_to_registers-saved, movem_to_memory-saved}

-- MOVEM.L between the registers and (An), with the direction.
abbrev pub MovemLong : Bool → ℕ → Type 0
MovemLong to_registers opcode =
    (test_bit 10 opcode ≡ to_registers) × (test_bit 6 opcode ≡ true) × (mode_field opcode ≡ 2)

-- The mask stands in memory at an even address, below another one.
abbrev pub MaskAt : ℕ → ℕ → ℕ → M68kCpu → Type 0
MaskAt mask p a c = (p % 2 ≡ 0) × (p + 2 ≤ a) × (memory_word c p ≡ mask)

-- The context in which the registers are moved.
abbrev decoded : ℤ → ℕ → M68kCpu → M68kCpu
decoded cycles fault_pc c = record c {
  pc = add32 c.pc 2;
  cycles_remaining = cycles;
  fault_pc = fault_pc;
  fault_pc_valid = true;
}

mask-fetched :
    (mask a : ℕ) (c : M68kCpu)
    → MaskAt mask c.pc a c
    → a ≤ c.memory_size
    → c.memory_size < 2 ^ 24
    → m68k_fetch no_host c ≡ (ok mask, record c { pc = add32 c.pc 2 })
unfolding m68k_fetch
mask-fetched mask a c (even, below, here) inside small =
    let masked : mask_address_24 c.pc ≡ c.pc = omega arith in
    rw (masked, here) at (fetch-memory m68k_exception c (omega arith, even))

exec_movem-stores :
    (opcode mask a : ℕ) (c : M68kCpu)
    → MovemLong false opcode
    → c.a_regs (ea_reg_field opcode) ≡ a
    → m68k_fetch no_host c ≡ (ok mask, record c { pc = add32 c.pc 2 })
    → (cycles : ℤ) × (fault_pc : ℕ) × (exec_movem opcode no_host c
        ≡ movem_to_memory 2
            (ea_reg_field opcode)
            size_long
            mask
            a
            no_host
            (decoded cycles fault_pc c))
unfolding exec_movem bad_movem_ea movem_address m68k_calc_ea_addr_nocost calc_ea_ex set_fault_pc
    memory_operand
exec_movem-stores opcode mask a c (direction, long, indirect) base fetched = (
  c.cycles_remaining -ℤ pos (movem_ea_cycles 2 (ea_reg_field opcode) false),
  add32 (add32 c.pc 2) 2,
  simp (direction, long, indirect, fetched, base) refl,
)

exec_movem-loads :
    (opcode mask a : ℕ) (c : M68kCpu)
    → MovemLong true opcode
    → c.a_regs (ea_reg_field opcode) ≡ a
    → m68k_fetch no_host c ≡ (ok mask, record c { pc = add32 c.pc 2 })
    → (cycles : ℤ) × (fault_pc : ℕ) × (exec_movem opcode no_host c
        ≡ movem_to_registers 2
            (ea_reg_field opcode)
            size_long
            mask
            a
            no_host
            (decoded cycles fault_pc c))
unfolding exec_movem bad_movem_ea movem_address m68k_calc_ea_addr_nocost calc_ea_ex set_fault_pc
    memory_operand
exec_movem-loads opcode mask a c (direction, long, indirect) base fetched = (
  c.cycles_remaining -ℤ pos (movem_ea_cycles 2 (ea_reg_field opcode) true) +ℤ pos 4,
  add32 (add32 c.pc 2) 2,
  simp (direction, long, indirect, fetched, base) refl,
)

saved-MaskAt :
    (mask p a : ℕ) (regs : ℕ → ℕ) (c d : M68kCpu)
    → ((x : ℕ) → d.memory x ≡ saved 16 0 mask a regs c.memory x)
    → MaskAt mask p a c
    → MaskAt mask p a d
unfolding memory_word
saved-MaskAt mask p a regs c d same (even, below, here) =
    let high = same p ∙ saved-below 16 0 mask a regs c.memory p (omega arith) in
    let low = same (p + 1) ∙ saved-below 16 0 mask a regs c.memory (p + 1) (omega arith) in
    (even, below, rw (high, low) here)

-- MOVEM.L of registers to (An) and, later, MOVEM.L of (Am) to registers with the same mask and the same even
-- address in Am, without callbacks: where sixteen longs have room in bound memory of less than 2^24
-- bytes from that address on, both mask words stand at even addresses below it, and every register
-- has 32 bits, both instructions end without an exception, whatever values `d_regs` and `a_regs` the
-- registers have been given in between and at whatever PC `resume` the second mask word stands. The
-- registers of the mask then have their values from before the first instruction again, and the
-- others keep what they were given.
pub exec_movem-exec_movem :
    (store load mask a resume : ℕ) (d_regs a_regs : ℕ → ℕ) (c : M68kCpu)
    → MovemLong false store
    → MovemLong true load
    → c.a_regs (ea_reg_field store) ≡ a
    → a_regs (ea_reg_field load) ≡ a
    → MaskAt mask c.pc a c
    → MaskAt mask resume a c
    → Room 16 a c.memory_size
    → ((j : ℕ) → mask_register j c < 2 ^ 32)
    → (stored : M68kCpu) × (loaded : M68kCpu) × (exec_movem store no_host c ≡ (ok tt, stored))
      × (exec_movem load no_host (record stored { pc = resume; d_regs = d_regs; a_regs = a_regs })
          ≡ (ok tt, loaded))
      × (◌≡◌ {A = ℕ → ℕ}
          (λ j. mask_register j loaded)
          (λ j.
            if ltb j 16 && test_bit j mask
            then mask_register j c
            else mask_register j (record c { d_regs = d_regs; a_regs = a_regs })))
unfolding mask_register
exec_movem-exec_movem store load mask a resume d_regs a_regs c to_memory to_registers base base2
      first second room fits =
    let (even, inside, small) = room in
    let regs = λ (j : ℕ). mask_register j c in
    let fetched = mask-fetched mask a c first (omega arith) small in
    let (spent, fault, begin) = exec_movem-stores store mask a c to_memory base fetched in
    let c1 = decoded spent fault c in
    let (cycles, rounds) = movem_to_memory-saved 2 (ea_reg_field store) mask a c1 refl room in
    let stored = record c1 {
      memory = saved 16 0 mask a regs c.memory;
      cycles_remaining = cycles;
    } in
    let before = record stored { pc = resume; d_regs = d_regs; a_regs = a_regs } in
    let again = saved-MaskAt mask resume a regs c before (λ x. refl) second in
    let fetched2 = mask-fetched mask a before again (omega arith) small in
    let (spent2, fault2, begin2) =
      exec_movem-loads load mask a before to_registers base2 fetched2 in
    let (loaded, load_run, same) =
      movem_to_registers-saved 2 (ea_reg_field load) mask a regs c.memory
        (decoded spent2 fault2 before) refl room fits (λ x. refl) in
    (stored, loaded, begin ∙ rounds, begin2 ∙ load_run, fun_ext (λ j. same j ∙ ground arith))
