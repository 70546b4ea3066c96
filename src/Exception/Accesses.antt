-- ===== src/Exception/Accesses.antt =====
-- How the accesses end, where the exceptions that they raise settle (src/m68k/m68k.c:
-- `m68k_read_8` to `m68k_write_size`).
use rocket.Base.{ℕ, ◌≤◌, ◌<◌, ◌≡◌, refl, inl, inr, Bool, true, false, ⊤, arith, Option-cases}
use rocket.Cpu.{M68kCpu, M68kSize, size_byte, size_word, size_long, Host, M, ◌>>◌}
use rocket.Bus.{
  set_fc, apply_wait_bus, bus_error, address_error, address_fault, bus_fault, read_8, read_16,
  read_32, fetch, write_8, write_16, write_32, mask_address_24, current_fc, capture_access_fault,
  abort_faulted_instruction,
}
use rocket.Exception.Guards.{SameGuards, clear_flags, IsPolite, Settles, Settles-bind}

module _ (h : Host) (polite : IsPolite h) where
  set_fc-Settles : (p : Bool) (c : M68kCpu) → Settles c (set_fc p h c)
  unfolding set_fc
  set_fc-Settles p c = elim (Option-cases h.fc_cb) [
    | inl e ↦ rw e (refl, refl, refl)
    | inr (f, e) ↦ rw e (polite.fc_cb f e (current_fc c p) c)
  ]

  apply_wait_bus-Settles :
      (a : ℕ) (s : M68kSize) (w : Bool) (c : M68kCpu) → Settles c (apply_wait_bus a s w h c)
  unfolding apply_wait_bus
  apply_wait_bus-Settles a s w c = elim (Option-cases h.wait_bus) [
    | inl e ↦ rw e (refl, refl, refl)
    | inr (f, e) ↦ ground (arith, polite.wait_bus f e a s w c)
  ]

  -- The start that the data accesses share.
  prologue-Settles :
      {A : Type 0} (a : ℕ) (s : M68kSize) (w : Bool) (k : M A) (c : M68kCpu)
      → ((c' : M68kCpu) → SameGuards c c' → Settles c' (k h c'))
      → Settles c ((apply_wait_bus a s w >> (set_fc false >> k)) h c)
  prologue-Settles a s w k c rest =
      Settles-bind h c (apply_wait_bus a s w) _ (apply_wait_bus-Settles a s w c) λ _ c1 s1.
        Settles-bind h c1 (set_fc false) _ (set_fc-Settles false c1)
          λ _ c2 s2. rest c2 (ground arith)

  module _ (exc : ℕ → M ⊤) (n : ℕ)
      (raises : (v : ℕ) (c : M68kCpu) → clear_flags c < n → Settles c (exc v h c)) where
    bus_error-Settles :
        (a : ℕ) (w p : Bool) (c : M68kCpu) → clear_flags c ≤ n → Settles c (bus_error exc a w p h c)
    unfolding bus_error capture_access_fault abort_faulted_instruction
    bus_error-Settles a w p c le = grind (arith, raises)

    address_error-Settles :
        (a : ℕ) (w p : Bool) (c : M68kCpu)
        → clear_flags c ≤ n
        → c.in_address_error ≡ false
        → Settles c (address_error exc a w p h c)
    unfolding address_error capture_access_fault abort_faulted_instruction
    address_error-Settles a w p c le clear = grind (arith, raises)

    address_fault-Settles :
        (a : ℕ) (p : Bool) (c : M68kCpu)
        → clear_flags c ≤ n
        → c.in_address_error ≡ false
        → Settles c (address_fault exc a p h c)
    unfolding address_fault
    address_fault-Settles a p c le clear =
        Settles-bind h c (address_error exc a false p) _
          (address_error-Settles a false p c le clear) (λ _ c1 s. (refl, refl, refl))

    bus_fault-Settles :
        (a : ℕ) (p : Bool) (c : M68kCpu) → clear_flags c ≤ n → Settles c (bus_fault exc a p h c)
    unfolding bus_fault
    bus_fault-Settles a p c le =
        Settles-bind h c (bus_error exc a false p) _ (bus_error-Settles a false p c le)
          (λ _ c1 s. (refl, refl, refl))

    pub read_8-Settles : (a : ℕ) (c : M68kCpu) → clear_flags c ≤ n → Settles c (read_8 exc a h c)
    unfolding read_8
    read_8-Settles a c le = prologue-Settles (mask_address_24 a) size_byte false _ c λ c1 s1.
        elim (Option-cases h.read8_cb) [
          | inl e ↦ ground (arith, bus_fault-Settles a false c1)
          | inr (f, e) ↦ ground (arith, polite.read8_cb f e (mask_address_24 a) c1)
        ]

    pub write_8-Settles :
        (a v : ℕ) (c : M68kCpu) → clear_flags c ≤ n → Settles c (write_8 exc a v h c)
    unfolding write_8
    write_8-Settles a v c le = prologue-Settles (mask_address_24 a) size_byte true _ c λ c1 s1.
        elim (Option-cases h.write8_cb) [
          | inl e ↦ ground (arith, bus_error-Settles a true false c1)
          | inr (f, e) ↦ ground (arith, polite.write8_cb f e (mask_address_24 a) v c1)
        ]

    pub read_16-Settles : (a : ℕ) (c : M68kCpu) → clear_flags c ≤ n → Settles c (read_16 exc a h c)
    unfolding read_16
    read_16-Settles a c le = prologue-Settles (mask_address_24 a) size_word false _ c λ c1 s1.
        elim (Option-cases h.read16_cb) [
          | inl e ↦ ground (arith, bus_fault-Settles a false c1, address_fault-Settles a false c1)
          | inr (f, e) ↦
              ground (
                arith,
                polite.read16_cb f e (mask_address_24 a) c1,
                address_fault-Settles a false c1,
              )
        ]

    pub write_16-Settles :
        (a v : ℕ) (c : M68kCpu) → clear_flags c ≤ n → Settles c (write_16 exc a v h c)
    unfolding write_16
    write_16-Settles a v c le = prologue-Settles (mask_address_24 a) size_word true _ c λ c1 s1.
        elim (Option-cases h.write16_cb) [
          | inl e ↦
              ground
                (arith, bus_error-Settles a true false c1, address_error-Settles a true false c1)
          | inr (f, e) ↦ ground (
            arith,
            polite.write16_cb f e (mask_address_24 a) v c1,
            address_error-Settles a true false c1,
          )
        ]

    pub read_32-Settles : (a : ℕ) (c : M68kCpu) → clear_flags c ≤ n → Settles c (read_32 exc a h c)
    unfolding read_32
    read_32-Settles a c le = prologue-Settles (mask_address_24 a) size_long false _ c λ c1 s1.
        elim (Option-cases h.read32_cb) [
          | inl e ↦ ground (arith, bus_fault-Settles a false c1, address_fault-Settles a false c1)
          | inr (f, e) ↦
              ground (
                arith,
                polite.read32_cb f e (mask_address_24 a) c1,
                address_fault-Settles a false c1,
              )
        ]

    pub write_32-Settles :
        (a v : ℕ) (c : M68kCpu) → clear_flags c ≤ n → Settles c (write_32 exc a v h c)
    unfolding write_32
    write_32-Settles a v c le = prologue-Settles (mask_address_24 a) size_long true _ c λ c1 s1.
        elim (Option-cases h.write32_cb) [
          | inl e ↦
              ground
                (arith, bus_error-Settles a true false c1, address_error-Settles a true false c1)
          | inr (f, e) ↦ ground (
            arith,
            polite.write32_cb f e (mask_address_24 a) v c1,
            address_error-Settles a true false c1,
          )
        ]

    pub fetch-Settles : (c : M68kCpu) → clear_flags c ≤ n → Settles c (fetch exc h c)
    unfolding fetch
    fetch-Settles c le = Settles-bind h c (set_fc true) _ (set_fc-Settles true c) λ _ c1 s1.
        let a = c1.pc in
        Settles-bind h c1 (apply_wait_bus (mask_address_24 a) size_word false) _
          (apply_wait_bus-Settles (mask_address_24 a) size_word false c1)
          λ _ c2 s2. elim (Option-cases h.read16_cb) [
            | inl e ↦ ground (arith, bus_fault-Settles a true c2, address_fault-Settles a true c2)
            | inr (f, e) ↦ ground (
              arith,
              polite.read16_cb f e (mask_address_24 a) c2,
              address_fault-Settles a true c2,
            )
          ]
