-- ===== src/Exception/Process.antt =====
-- The status register, the stack, and one level of exception processing.
use rocket.Base.{
  ℕ, zero, suc, ◌+◌, ◌-◌, ◌*◌, Bool, false, not, ◌&&◌, ◌||◌, none, some, ⊤, ◌==◌, if◌then◌else◌,
  bit_and, bit_or, test_bit, u16, add32, sub32, update,
}
use rocket.Cpu.{
  M68kCpu, is_68010, sr_s, out_of_fuel, M, pure, gets, modify, asks, when, call, set_a, ◌>>=◌, ◌>>◌,
}
use rocket.Bus.{read_16, read_32, write_16, write_32}

-- `m68k_set_pc`.
unfoldable pub set_pc : ℕ → M ⊤
set_pc pc = do
  modify (λ c. record c { pc = pc })
  cb ← asks (λ h. h.pc_changed_cb)
  elim cb [ none ↦ pure tt | some f ↦ modify (f pc) ]

-- The effect of `m68k_set_sr` on the context: A7 is exchanged with the stack pointer of the other
-- mode when the S bit changes.
unfoldable pub set_sr : ℕ → M68kCpu → M68kCpu
set_sr raw_sr c =
    let new_sr = bit_and raw_sr 0xA71F in
    let old_s = test_bit sr_s c.sr in
    let new_s = test_bit sr_s new_sr in
    if old_s
    then (if new_s
        then record c { sr = new_sr }
        else record c { ssp = c.a_regs 7; a_regs = update c.a_regs 7 c.usp; sr = new_sr })
    else (if new_s
        then record c { usp = c.a_regs 7; a_regs = update c.a_regs 7 c.ssp; sr = new_sr }
        else record c { sr = new_sr })

module _ (exc : ℕ → M ⊤) where
  unfoldable pub push_32 : ℕ → M ⊤
  push_32 value = do sp ← gets (λ c. sub32 (c.a_regs 7) 4); set_a 7 sp; write_32 exc sp value

  unfoldable pub pop_32 : M ℕ
  pop_32 = do
    sp ← gets (λ c. c.a_regs 7)
    value ← read_32 exc sp
    modify (λ c. record c { a_regs = update c.a_regs 7 (add32 (c.a_regs 7) 4) })
    pure value

  unfoldable pub push_16 : ℕ → M ⊤
  push_16 value = do sp ← gets (λ c. sub32 (c.a_regs 7) 2); set_a 7 sp; write_16 exc sp value

  unfoldable pub pop_16 : M ℕ
  pop_16 = do
    sp ← gets (λ c. c.a_regs 7)
    value ← read_16 exc sp
    modify (λ c. record c { a_regs = update c.a_regs 7 (add32 (c.a_regs 7) 2) })
    pure value

-- The illegal opcode callback may claim the instruction.
unfoldable pub claimed_by_host : ℕ → M Bool
claimed_by_host vector = do
  cb ← asks (λ h. h.illg_cb)
  ir ← gets (λ c. c.ir)
  if vector == 4
      then elim cb [ none ↦ pure false | some f ↦ do r ← call (f ir); pure (not (r == 0)) ]
      else pure false

-- The PC that the frame holds.
unfoldable pub frame_pc : ℕ → M68kCpu → ℕ
frame_pc vector c =
    let old_pc =
      (if vector == 4 || vector == 8 || vector == 10 || vector == 11 then c.ppc else c.pc) in
    if (vector == 2 || vector == 3) && c.fault_pc_valid then c.fault_pc else old_pc

-- Entry: the marker, the nesting depth, and supervisor mode with tracing off.
unfoldable pub enter_exception : ℕ → M68kCpu → M68kCpu
enter_exception vector c =
    let thrown = (if c.exception_thrown == 0 then vector else c.exception_thrown) in
    set_sr (bit_and (bit_or c.sr 0x2000) 0x7FFF)
      (record c { exception_thrown = thrown; exception_depth = c.exception_depth + 1 })

-- The latches that the end of frame building clears.
unfoldable pub clear_fault_latches : M68kCpu → M68kCpu
clear_fault_latches c = record c {
  fault_program_access = false;
  fault_valid = false;
  fault_pc_valid = false;
  fault_bus_word_valid = false;
  operand_program_space = false;
}

module _ (exc : ℕ → M ⊤) where
  -- The 14-byte frame of a bus or address error, and the frame of every other exception.
  unfoldable pub push_group0_frame : ℕ → ℕ → M ⊤
  push_group0_frame old_pc old_sr = do
    c ← gets (λ c. c)
    let ir = (if c.fault_valid then c.fault_ir else c.ir)
    let fault_address = (if c.fault_valid then c.fault_address else 0)
    let ssw = (if c.fault_valid then c.fault_ssw else 0)
    push_32 exc old_pc
    push_16 exc old_sr
    push_16 exc ir
    push_32 exc fault_address
    push_16 exc ssw

  unfoldable pub push_short_frame : ℕ → ℕ → ℕ → M ⊤
  push_short_frame vector old_pc old_sr = do
    model ← gets (λ c. c.model)
    when (is_68010 model) (push_16 exc (u16 (vector * 4)))
    push_32 exc old_pc
    push_16 exc old_sr

  -- The frame, the end of the fault latches, and the jump through the vector.
  unfoldable pub take_vector : ℕ → ℕ → ℕ → M ⊤
  take_vector vector old_pc old_sr = do
    if vector == 2 || vector == 3
        then push_group0_frame old_pc old_sr
        else push_short_frame vector old_pc old_sr
    modify clear_fault_latches
    vbr ← gets (λ c. c.vbr)
    vector_addr ← read_32 exc (add32 vbr (vector * 4))
    set_pc vector_addr

  -- `m68k_exception`, where `exc` raises the exceptions of its own accesses.
  unfoldable pub exception_step : ℕ → M ⊤
  exception_step vector = do
    claimed ← claimed_by_host vector
    c ← gets (λ c. c)
    if claimed then pure tt else (do
      modify (enter_exception vector)
      take_vector vector (frame_pc vector c) c.sr
      modify (λ c. record c { exception_depth = c.exception_depth - 1 }))

-- The nesting unrolled.
unfoldable pub exception_fuel : ℕ → ℕ → M ⊤
exception_fuel zero vector h c = (out_of_fuel, c)
exception_fuel (suc fuel) vector h c = exception_step (exception_fuel fuel) vector h c
