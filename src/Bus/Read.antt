-- ===== src/Bus/Read.antt =====
-- Reads and instruction fetches.
use rocket.Base.{
  ℕ, ◌+◌, true, false, not, ◌&&◌, none, some, ⊤, if◌then◌else◌, bit_or, shl, u8, u16, u32, add32,
}
use rocket.Cpu.{
  M68kCpu, M68kSize, size_byte, size_word, size_long, M, pure, gets, modify, asks, call, ◌>>=◌,
  ◌>>◌,
}
use rocket.Bus.Fault.{
  mask_address_24, is_valid_address, is_odd, set_fc, apply_wait_bus, address_fault, bus_fault,
}

-- Two and four bytes of memory, most significant first.
unfoldable pub memory_word : M68kCpu → ℕ → ℕ
memory_word c a = u16 (bit_or (shl (c.memory a) 8) (c.memory (a + 1)))

unfoldable pub memory_long : M68kCpu → ℕ → ℕ
memory_long c a =
    bit_or
      (bit_or (bit_or (shl (c.memory a) 24) (shl (c.memory (a + 1)) 16)) (shl (c.memory (a + 2)) 8))
      (c.memory (a + 3))

module _ (exc : ℕ → M ⊤) where
  unfoldable pub read_8 : ℕ → M ℕ
  read_8 raw_address = do
    let address = mask_address_24 raw_address
    apply_wait_bus address size_byte false
    set_fc false
    cb ← asks (λ h. h.read8_cb)
    c ← gets (λ c. c)
    elim cb [
      | some f ↦ do v ← call (f address); pure (u8 v)
      | none ↦
          if is_valid_address c address
          then pure (c.memory address)
          else bus_fault exc raw_address false
    ]

  unfoldable pub read_16 : ℕ → M ℕ
  read_16 raw_address = do
    let address = mask_address_24 raw_address
    apply_wait_bus address size_word false
    set_fc false
    cb ← asks (λ h. h.read16_cb)
    c ← gets (λ c. c)
    if is_odd address && not c.in_address_error
        then address_fault exc raw_address false
        else elim cb [
          | some f ↦ do v ← call (f address); pure (u16 v)
          | none ↦
              if is_valid_address c address && is_valid_address c (address + 1)
              then pure (memory_word c address)
              else bus_fault exc raw_address false
        ]

  unfoldable pub read_32 : ℕ → M ℕ
  read_32 raw_address = do
    let address = mask_address_24 raw_address
    apply_wait_bus address size_long false
    set_fc false
    cb ← asks (λ h. h.read32_cb)
    c ← gets (λ c. c)
    if is_odd address && not c.in_address_error
        then address_fault exc raw_address false
        else elim cb [
          | some f ↦ do v ← call (f address); pure (u32 v)
          | none ↦
              if is_valid_address c address && is_valid_address c (address + 3)
              then pure (memory_long c address)
              else bus_fault exc raw_address false
        ]

  -- The tail of `m68k_fetch`: `cpu->pc += 2`. It is reached with 0 where a bus error is active.
  abbrev advance_pc : ℕ → M ℕ
  advance_pc opcode = do modify (λ c. record c { pc = add32 c.pc 2 }); pure opcode

  unfoldable pub fetch : M ℕ
  fetch = do
    set_fc true
    raw_fetch_addr ← gets (λ c. c.pc)
    let fetch_addr = mask_address_24 raw_fetch_addr
    apply_wait_bus fetch_addr size_word false
    cb ← asks (λ h. h.read16_cb)
    c ← gets (λ c. c)
    if is_odd fetch_addr && not c.in_address_error
        then address_fault exc raw_fetch_addr true
        else elim cb [
          | some f ↦ do v ← call (f fetch_addr); advance_pc (u16 v)
          | none ↦
              if is_valid_address c fetch_addr && is_valid_address c (fetch_addr + 1)
              then advance_pc (memory_word c fetch_addr)
              else (if not c.in_bus_error then bus_fault exc raw_fetch_addr true else advance_pc 0)
        ]

  unfoldable pub read_size : ℕ → M68kSize → M ℕ
  read_size address size_byte = read_8 address
  read_size address size_word = read_16 address
  read_size address size_long = read_32 address
