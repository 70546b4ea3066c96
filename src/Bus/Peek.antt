-- ===== src/Bus/Peek.antt =====
-- `m68k_peek_word` (src/m68k/m68k_internal.h): a look at memory without wait states, faults or cost.
use rocket.Base.{ℕ, ◌+◌, none, some, ltb, if◌then◌else◌, u16}
use rocket.Cpu.{M, pure, gets, asks, call, ◌>>=◌}
use rocket.Bus.Fault.{mask_address_24}
use rocket.Bus.Read.{memory_word}

unfoldable pub m68k_peek_word : ℕ → M ℕ
m68k_peek_word address = do
  let a = mask_address_24 address
  cb ← asks (λ h. h.read16_cb)
  elim cb [
    | some f ↦ do v ← call (f a); pure (u16 v)
    | none ↦ gets (λ c. if ltb (a + 1) c.memory_size then memory_word c a else 0)
  ]
