-- ===== src/Core/Service.antt =====
-- What the service of an interrupt leaves pending (src/m68k/m68k.c: `m68k_set_irq`,
-- `check_interrupts`).
use rocket.Base.{
  ℕ, ◌+◌, ◌*◌, ◌/◌, ◌^◌, ◌<◌, ◌≡◌, ◌≢◌, refl, Bool, true, false, none, inl, inr, Bool-cases,
  Option-cases, ⊤, arith, bit_and, bit_or, shr, low_bits, bit_or-div, bit_and-div, bit_and_high,
  bit_or_fields, ap, ◌∙◌, if◌then◌else◌,
}
use rocket.Cpu.{M68kCpu, Host, Outcome, ok, longjmp, out_of_fuel}
use rocket.Exception.Guards.{IsPolite}
use rocket.Exception.Settles.{Completes, m68k_exception-Completes}
use rocket.Exception.{m68k_exception}
use rocket.Core.Interrupt.{
  m68k_set_irq, takes_interrupt, interrupt_vector, mask_level, finish_interrupt, service_interrupt,
  check_interrupts,
}

-- The mask field of the new status register is the level.
mask_level-field : (level sr : ℕ) → level < 8 → low_bits (shr (mask_level level sr) 8) 3 ≡ level
unfolding mask_level
mask_level-field level sr lt =
    let q = bit_and (sr / 2 ^ 8 / 2 ^ 3) 0x1F in
    let shifted : level * 2 ^ 8 / 2 ^ 8 ≡ level = omega arith in
    let top : bit_or (bit_and sr 0xF8FF) (level * 2 ^ 8) / 2 ^ 8 ≡ q * 2 ^ 3 + level =
      bit_or-div 8 (bit_and sr 0xF8FF) (level * 2 ^ 8)
      ∙ ap (λ (t : ℕ). bit_or t (level * 2 ^ 8 / 2 ^ 8))
          (bit_and-div 8 sr 0xF8FF ∙ bit_and_high 3 0x1F (sr / 2 ^ 8))
      ∙ ap (λ (t : ℕ). bit_or (q * 2 ^ 3) t) shifted
      ∙ bit_or_fields 3 q level lt in
    omega (arith, top)

-- What `finish_interrupt` leaves for the pending level, which is below 8: the mask field of SR is that level,
-- the latch of level 7 is clear, the processor is not stopped, and the pending level is 0 with
-- `auto_clear`, which the service sets where no acknowledge callback is installed, and stays as it
-- was without. Either way the request is no longer taken.
pub finish_interrupt-masks :
    (auto_clear : Bool) (c : M68kCpu)
    → c.irq_level < 8
    → let c' = finish_interrupt auto_clear c.irq_level c in
      (low_bits (shr c'.sr 8) 3 ≡ c.irq_level)
      × (c'.nmi_pending ≡ false)
      × (c'.stopped ≡ false)
      × (c'.irq_level ≡ (if auto_clear then 0 else c.irq_level))
      × (takes_interrupt c' ≡ false)
unfolding takes_interrupt finish_interrupt
finish_interrupt-masks auto_clear c lt =
    let field = mask_level-field c.irq_level c.sr lt in
    (field, refl, refl, refl, ground (arith, field))

-- Level 7 is taken on its edge, whatever the mask: a line that has been at another level is taken when
-- it reaches 7. After `finish_interrupt` for level 7, a line that is set to 7 again is taken again
-- exactly with `auto_clear`, which the service sets where no acknowledge callback is installed,
-- since the level has then been cleared; without it the line is still held at 7 and is not taken.
pub m68k_set_irq-edge :
    (c : M68kCpu) (sr level : ℕ) (auto_clear : Bool)
    → level ≢ 7
    → (takes_interrupt (m68k_set_irq 7 (m68k_set_irq level c)) ≡ true)
      × (takes_interrupt
            (m68k_set_irq 7 (finish_interrupt auto_clear 7 (record c { irq_level = 7; sr = sr })))
          ≡ auto_clear)
unfolding takes_interrupt finish_interrupt m68k_set_irq
m68k_set_irq-edge c sr level true other = (ground arith, ground arith)
m68k_set_irq-edge c sr level false other = (ground arith, ground arith)

module _ (h : Host) (polite : IsPolite h) (silent : h.int_ack ≡ none) where
  autovector : (level : ℕ) (c : M68kCpu) → interrupt_vector level h c ≡ (ok (24 + level), c)
  unfolding interrupt_vector
  autovector level c = ground arith

  cleared : (level : ℕ) (c : M68kCpu) → takes_interrupt (finish_interrupt true level c) ≡ false
  unfolding takes_interrupt finish_interrupt
  cleared level c = refl

  completed : (c : M68kCpu) (r : Outcome ⊤ × M68kCpu) → Completes c r → r.0 ≡ ok tt
  completed c (ok tt, c') s = refl
  completed c (longjmp, c') s = absurd s
  completed c (out_of_fuel, c') s = absurd s

  service_interrupt-settled :
      (level : ℕ) (c : M68kCpu)
      → let (r, c') = service_interrupt level h c in (r ≡ ok true) × (takes_interrupt c' ≡ false)
  unfolding service_interrupt
  service_interrupt-settled level c =
      let done =
        completed c (m68k_exception (24 + level) h c)
          (m68k_exception-Completes h polite (24 + level) c) in
      simp (autovector level c, done, silent)
        (refl, cleared level (m68k_exception (24 + level) h c).1)

  -- Under a host that leaves the exception guards alone and acknowledges no interrupts: the check of
  -- the interrupt lines returns, it reports a service exactly when a request is taken, and no
  -- request is left to take.
  pub check_interrupts-settled :
      (c : M68kCpu)
      → let (r, c') = check_interrupts h c in
        (r ≡ ok (takes_interrupt c)) × (takes_interrupt c' ≡ false)
  unfolding check_interrupts
  check_interrupts-settled c = elim (Bool-cases (takes_interrupt c)) [
    | inr quiet ↦ rw quiet (refl, quiet)
    | inl taken ↦ elim (Option-cases h.fc_cb) [
      | inl none_cb ↦ simp (taken, none_cb) (service_interrupt-settled c.irq_level c)
      | inr (f, some_cb) ↦ simp (taken, some_cb) (service_interrupt-settled c.irq_level (f 7 c))
    ]
  ]
