-- ===== src/Core/Interrupt.antt =====
-- The interrupt lines and their service.
use rocket.Base.{
  ℕ, ◌+◌, Bool, true, false, not, ◌&&◌, none, some, ◌==◌, ltb, if◌then◌else◌, bit_and, bit_or, shl,
  shr, low_bits, u16,
}
use rocket.Cpu.{M68kCpu, M, pure, gets, modify, asks, call, ◌>>=◌, ◌>>◌}
use rocket.Exception.{m68k_exception}

unfoldable pub m68k_set_irq : ℕ → M68kCpu → M68kCpu
m68k_set_irq level c =
    if level == 7 && not (c.irq_level == 7)
    then record c { nmi_pending = true; irq_level = level }
    else record c { irq_level = level }

-- `take` of `check_interrupts`, with its first test.
unfoldable pub takes_interrupt : M68kCpu → Bool
takes_interrupt c =
    if c.irq_level == 0
    then false
    else if c.irq_level == 7
    then c.nmi_pending
    else ltb (low_bits (shr c.sr 8) 3) c.irq_level

-- The vector: the host's answer, or the autovector of the level.
unfoldable pub interrupt_vector : ℕ → M ℕ
interrupt_vector level = do
  cb ← asks (λ h. h.int_ack)
  elim cb [
    | none ↦ pure (24 + level)
    | some f ↦ do
      ack ← call (f level)
      pure (
          if ack == 0xFFFFFFFF
          then 24 + level
          else if ack == 0xFFFFFFFE
          then 24
          else low_bits ack 8)
  ]

-- SR with the interrupt mask at the level.
unfoldable pub mask_level : ℕ → ℕ → ℕ
mask_level level sr = u16 (bit_or (bit_and sr 0xF8FF) (shl level 8))

-- Without an acknowledge callback the request clears.
unfoldable pub finish_interrupt : Bool → ℕ → M68kCpu → M68kCpu
finish_interrupt auto_clear level c = record c {
  sr = mask_level level c.sr;
  nmi_pending = false;
  irq_level = (if auto_clear then 0 else c.irq_level);
  stopped = false;
}

-- The exception of the level, and what follows it.
unfoldable pub service_interrupt : ℕ → M Bool
service_interrupt level = do
  vector ← interrupt_vector level
  m68k_exception vector
  ack ← asks (λ h. h.int_ack)
  modify (finish_interrupt (elim ack [ none ↦ true | some _ ↦ false ]) level)
  pure true

unfoldable pub check_interrupts : M Bool
check_interrupts = do
  c ← gets (λ c. c)
  if takes_interrupt c
      then (do
        fc ← asks (λ h. h.fc_cb)
        elim fc [ none ↦ pure tt | some f ↦ modify (f 7) ]
        service_interrupt c.irq_level)
      else pure false
