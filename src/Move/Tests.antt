-- ===== src/Move/Tests.antt =====
-- Concrete registers for the theorems on the move instructions.
use rocket.Base.{
  ◌||◌, ◌+◌, ◌≡◌, refl, arith, if◌then◌else◌, ◌==◌, ◌<◌, ◌%◌, ◌^◌, ◌&&◌, ℕ, ltb, test_bit,
}
use rocket.Cpu.{M68kCpu, no_host, zero_cpu, ok, ◌>>◌}
use rocket.Move.Registers.{exec_link, exec_unlk}
use rocket.Move.Multiple.{mask_register, exec_movem}
use rocket.Move.Link.{exec_link-exec_unlk}
use rocket.Bus.{memory_word}
use rocket.Move.Movem.{exec_movem-exec_movem}

abbrev routine : M68kCpu
routine = record zero_cpu {
  memory = λ a. 0xFF;
  memory_size = 0x1000;
  pc = 0x402;
  a_regs = λ i. (if i == 7 then 0x800 else i + 0x100);
}

abbrev in_use : M68kCpu
in_use = record routine {
  d_regs = λ i. i % 8 + 0x10;
  a_regs = λ i. (if i == 7 then 0x800 else i % 8 + 0x100);
}

-- LINK A6 and UNLK A6.
exec_link-exec_unlk_example :
    let c' = ((exec_link 0x4E56 >> exec_unlk 0x4E5E) no_host routine).1 in
    (((exec_link 0x4E56 >> exec_unlk 0x4E5E) no_host routine).0 ≡ ok tt) × (c'.a_regs 6 ≡ 0x106)
exec_link-exec_unlk_example =
    exec_link-exec_unlk 0x4E56 0x4E5E 6 routine refl (ground arith) (omega arith, refl)
      (omega arith, refl) (omega arith) (omega arith)

-- A context at the mask D0-D1/A0/A7 of one MOVEM, with the same mask at 0x502.
abbrev saving : M68kCpu
saving = record in_use {
  memory = λ a.
      (if a == 0x402 || a == 0x502 then 0x81 else if a == 0x403 || a == 0x503 then 0x03 else 0xFF);
  a_regs = λ i. (if i == 1 then 0x900 else i % 8 + 0x100);
}

saving-fits : (j : ℕ) → mask_register j saving < 2 ^ 32
unfolding mask_register
saving-fits j = ground arith

abbrev others : ℕ → ℕ
others i = if i == 2 then 0x900 else 0

-- MOVEM.L D0-D1/A0/A7,(A1) and MOVEM.L (A2),D0-D1/A0/A7, with the registers changed in between.
exec_movem-exec_movem_example :
    (stored : M68kCpu) × (loaded : M68kCpu) × (exec_movem 0x48D1 no_host saving ≡ (ok tt, stored))
    × (exec_movem 0x4CD2 no_host (record stored { pc = 0x502; d_regs = λ i. 0; a_regs = others })
        ≡ (ok tt, loaded))
    × (◌≡◌ {A = ℕ → ℕ}
        (λ j. mask_register j loaded)
        (λ j.
          if ltb j 16 && test_bit j 0x8103
          then mask_register j saving
          else mask_register j (record saving { d_regs = λ i. 0; a_regs = others })))
unfolding test_bit memory_word
exec_movem-exec_movem_example =
    exec_movem-exec_movem 0x48D1 0x4CD2 0x8103 0x900 0x502 (λ i. 0) others saving (refl, refl, refl)
      (refl, refl, refl) refl refl (refl, omega arith, refl) (refl, omega arith, refl)
      (refl, omega arith, omega arith) saving-fits
