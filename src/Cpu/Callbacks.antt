-- ===== src/Cpu/Callbacks.antt =====
-- The callbacks that a host may install (include/m68k.h). They are the program's environment: a
-- callback is any function of the CPU context, which it may change, and its result is cut to its
-- C type where it is used. `none` is a null pointer.
use rocket.Base.{ℕ, ℤ, Bool, Option, none}
use rocket.Cpu.State.{M68kCpu, M68kSize}

pub record Host : Type 0 where
  pub wait_bus : Option (ℕ → M68kSize → Bool → M68kCpu → ℤ × M68kCpu)
  pub int_ack : Option (ℕ → M68kCpu → ℕ × M68kCpu)
  pub fc_cb : Option (ℕ → M68kCpu → M68kCpu)
  pub instr_hook_cb : Option (ℕ → M68kCpu → M68kCpu)
  pub pc_changed_cb : Option (ℕ → M68kCpu → M68kCpu)
  pub reset_cb : Option (M68kCpu → M68kCpu)
  pub tas_cb : Option (M68kCpu → ℕ × M68kCpu)
  pub illg_cb : Option (ℕ → M68kCpu → ℕ × M68kCpu)
  pub read8_cb : Option (ℕ → M68kCpu → ℕ × M68kCpu)
  pub read16_cb : Option (ℕ → M68kCpu → ℕ × M68kCpu)
  pub read32_cb : Option (ℕ → M68kCpu → ℕ × M68kCpu)
  pub write8_cb : Option (ℕ → ℕ → M68kCpu → M68kCpu)
  pub write16_cb : Option (ℕ → ℕ → M68kCpu → M68kCpu)
  pub write32_cb : Option (ℕ → ℕ → M68kCpu → M68kCpu)

-- No callback is installed.
abbrev pub no_host : Host
no_host = record {
  wait_bus = none;
  int_ack = none;
  fc_cb = none;
  instr_hook_cb = none;
  pc_changed_cb = none;
  reset_cb = none;
  tas_cb = none;
  illg_cb = none;
  read8_cb = none;
  read16_cb = none;
  read32_cb = none;
  write8_cb = none;
  write16_cb = none;
  write32_cb = none;
}
