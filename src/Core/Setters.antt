-- ===== src/Core/Setters.antt =====
-- The setters of the callbacks (src/m68k/m68k.c: `m68k_set_wait_bus_callback` to
-- `m68k_set_write32_callback`). A null pointer, `none`, removes a callback.
use rocket.Base.{ℕ, ℤ, Bool, Option}
use rocket.Cpu.{M68kCpu, M68kSize, Host}

unfoldable pub m68k_set_wait_bus_callback :
    Option (ℕ → M68kSize → Bool → M68kCpu → ℤ × M68kCpu) → Host → Host
m68k_set_wait_bus_callback callback h = record h { wait_bus = callback }

unfoldable pub m68k_set_int_ack_callback : Option (ℕ → M68kCpu → ℕ × M68kCpu) → Host → Host
m68k_set_int_ack_callback callback h = record h { int_ack = callback }

unfoldable pub m68k_set_fc_callback : Option (ℕ → M68kCpu → M68kCpu) → Host → Host
m68k_set_fc_callback callback h = record h { fc_cb = callback }

unfoldable pub m68k_set_instr_hook_callback : Option (ℕ → M68kCpu → M68kCpu) → Host → Host
m68k_set_instr_hook_callback callback h = record h { instr_hook_cb = callback }

unfoldable pub m68k_set_pc_changed_callback : Option (ℕ → M68kCpu → M68kCpu) → Host → Host
m68k_set_pc_changed_callback callback h = record h { pc_changed_cb = callback }

unfoldable pub m68k_set_reset_callback : Option (M68kCpu → M68kCpu) → Host → Host
m68k_set_reset_callback callback h = record h { reset_cb = callback }

unfoldable pub m68k_set_tas_callback : Option (M68kCpu → ℕ × M68kCpu) → Host → Host
m68k_set_tas_callback callback h = record h { tas_cb = callback }

unfoldable pub m68k_set_illg_callback : Option (ℕ → M68kCpu → ℕ × M68kCpu) → Host → Host
m68k_set_illg_callback callback h = record h { illg_cb = callback }

unfoldable pub m68k_set_read8_callback : Option (ℕ → M68kCpu → ℕ × M68kCpu) → Host → Host
m68k_set_read8_callback callback h = record h { read8_cb = callback }

unfoldable pub m68k_set_read16_callback : Option (ℕ → M68kCpu → ℕ × M68kCpu) → Host → Host
m68k_set_read16_callback callback h = record h { read16_cb = callback }

unfoldable pub m68k_set_read32_callback : Option (ℕ → M68kCpu → ℕ × M68kCpu) → Host → Host
m68k_set_read32_callback callback h = record h { read32_cb = callback }

unfoldable pub m68k_set_write8_callback : Option (ℕ → ℕ → M68kCpu → M68kCpu) → Host → Host
m68k_set_write8_callback callback h = record h { write8_cb = callback }

unfoldable pub m68k_set_write16_callback : Option (ℕ → ℕ → M68kCpu → M68kCpu) → Host → Host
m68k_set_write16_callback callback h = record h { write16_cb = callback }

unfoldable pub m68k_set_write32_callback : Option (ℕ → ℕ → M68kCpu → M68kCpu) → Host → Host
m68k_set_write32_callback callback h = record h { write32_cb = callback }
