-- ===== src/Bus/Write.antt =====
-- Writes.
use rocket.Base.{
  ℕ, ◌+◌, true, false, not, ◌&&◌, none, some, ⊤, if◌then◌else◌, low_bits, shr, u8, u16, update,
}
use rocket.Cpu.{M68kSize, size_byte, size_word, size_long, M, gets, modify, asks, ◌>>=◌, ◌>>◌}
use rocket.Bus.Fault.{
  mask_address_24, is_valid_address, is_odd, set_fc, apply_wait_bus, address_error, bus_error,
}

-- Big-endian stores of two and four bytes.
unfoldable pub store_word : ℕ → ℕ → (ℕ → ℕ) → ℕ → ℕ
store_word a v mem = update (update mem a (low_bits (shr v 8) 8)) (a + 1) (low_bits v 8)

unfoldable pub store_long : ℕ → ℕ → (ℕ → ℕ) → ℕ → ℕ
store_long a v mem =
    update
      (update (update (update mem a (low_bits (shr v 24) 8)) (a + 1) (low_bits (shr v 16) 8))
        (a + 2) (low_bits (shr v 8) 8))
      (a + 3) (low_bits v 8)

module _ (exc : ℕ → M ⊤) where
  unfoldable pub write_8 : ℕ → ℕ → M ⊤
  write_8 raw_address value = do
    let address = mask_address_24 raw_address
    apply_wait_bus address size_byte true
    set_fc false
    cb ← asks (λ h. h.write8_cb)
    c ← gets (λ c. c)
    elim cb [
      | some f ↦ modify (f address value)
      | none ↦
          if is_valid_address c address
          then modify (λ c. record c { memory = update c.memory address value })
          else bus_error exc raw_address true false
    ]

  unfoldable pub write_16 : ℕ → ℕ → M ⊤
  write_16 raw_address value = do
    let address = mask_address_24 raw_address
    apply_wait_bus address size_word true
    set_fc false
    cb ← asks (λ h. h.write16_cb)
    c ← gets (λ c. c)
    if is_odd address && not c.in_address_error
        then address_error exc raw_address true false
        else elim cb [
          | some f ↦ modify (f address value)
          | none ↦
              if is_valid_address c address && is_valid_address c (address + 1)
              then modify (λ c. record c { memory = store_word address value c.memory })
              else bus_error exc raw_address true false
        ]

  unfoldable pub write_32 : ℕ → ℕ → M ⊤
  write_32 raw_address value = do
    let address = mask_address_24 raw_address
    apply_wait_bus address size_long true
    set_fc false
    cb ← asks (λ h. h.write32_cb)
    c ← gets (λ c. c)
    if is_odd address && not c.in_address_error
        then address_error exc raw_address true false
        else elim cb [
          | some f ↦ modify (f address value)
          | none ↦
              if is_valid_address c address && is_valid_address c (address + 3)
              then modify (λ c. record c { memory = store_long address value c.memory })
              else bus_error exc raw_address true false
        ]

  unfoldable pub write_size : ℕ → ℕ → M68kSize → M ⊤
  write_size address value size_byte = write_8 address (u8 value)
  write_size address value size_word = write_16 address (u16 value)
  write_size address value size_long = write_32 address value
