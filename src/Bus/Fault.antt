-- ===== src/Bus/Fault.antt =====
-- Function codes, access faults and wait states.
use rocket.Base.{
  ℕ, pos, ◌-ℤ◌, ltb_ℤ, Bool, true, false, not, ◌&&◌, ◌||◌, none, some, ⊤, ltb, ◌==◌, if◌then◌else◌,
  bit_and, bit_or, low_bits, test_bit,
}
use rocket.Cpu.{M68kCpu, M68kSize, sr_s, M, pure, gets, modify, asks, jump, when, call, ◌>>=◌, ◌>>◌}

abbrev pub mask_address_24 : ℕ → ℕ
mask_address_24 address = low_bits address 24

abbrev pub is_valid_address : M68kCpu → ℕ → Bool
is_valid_address c address = ltb address c.memory_size

-- `address & 1`.
abbrev pub is_odd : ℕ → Bool
is_odd address = low_bits address 1 == 1

unfoldable pub current_fc : M68kCpu → Bool → ℕ
current_fc c is_program =
    let prog = is_program || c.operand_program_space in
    if test_bit sr_s c.sr then (if prog then 6 else 5) else (if prog then 2 else 1)

unfoldable pub set_fc : Bool → M ⊤
set_fc is_program = do
  cb ← asks (λ h. h.fc_cb)
  elim cb [ none ↦ pure tt | some f ↦ modify (λ c. f (current_fc c is_program) c) ]

unfoldable pub capture_access_fault : ℕ → Bool → Bool → M ⊤
capture_access_fault address is_write is_program = modify (λ c.
    let fc = low_bits (current_fc c is_program) 3 in
    let rw_bit = (if is_write then 0 else 0x10) in
    let ir = (if c.fault_bus_word_valid then c.fault_bus_word else c.ir) in
    record c {
      fault_address = address;
      fault_ir = ir;
      fault_ssw = bit_or (bit_or (bit_and ir 0xFFE0) rw_bit) fc;
      fault_program_access = is_program;
      fault_valid = true;
      group0_fault = true;
    })

-- Only a fault during instruction execution aborts the instruction; one inside exception
-- processing does not.
unfoldable pub abort_faulted_instruction : M ⊤
abort_faulted_instruction = do
  c ← gets (λ c. c)
  when (c.fault_trap_active && c.group0_fault && c.exception_depth == 0) jump

unfoldable pub apply_wait_bus : ℕ → M68kSize → Bool → M ⊤
apply_wait_bus address size is_write = do
  cb ← asks (λ h. h.wait_bus)
  elim cb [
    | none ↦ pure tt
    | some f ↦ do
      wait ← call (f address size is_write)
      when (ltb_ℤ (pos 0) wait)
          (modify (λ c. record c { cycles_remaining = c.cycles_remaining -ℤ wait }))
  ]

module _ (exc : ℕ → M ⊤) where
  -- The sequence that each access runs on an odd address.
  unfoldable pub address_error : ℕ → Bool → Bool → M ⊤
  address_error raw_address is_write is_program = do
    capture_access_fault raw_address is_write is_program
    modify (λ c. record c { in_address_error = true })
    exc 3
    modify (λ c. record c { in_address_error = false })
    abort_faulted_instruction

  -- The sequence that each access runs outside the bound memory, unless a bus error is active.
  unfoldable pub bus_error : ℕ → Bool → Bool → M ⊤
  bus_error raw_address is_write is_program = do
    c ← gets (λ c. c)
    when (not c.in_bus_error) (do
      capture_access_fault raw_address is_write is_program
      modify (λ c. record c { in_bus_error = true })
      exc 2
      modify (λ c. record c { in_bus_error = false })
      abort_faulted_instruction)

  -- The same for the accesses that return a value: they return 0 after a fault.
  unfoldable pub address_fault : ℕ → Bool → M ℕ
  address_fault raw_address is_program = do address_error raw_address false is_program; pure 0

  unfoldable pub bus_fault : ℕ → Bool → M ℕ
  bus_fault raw_address is_program = do bus_error raw_address false is_program; pure 0
