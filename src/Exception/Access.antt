-- ===== src/Exception/Access.antt =====
-- The functions that the instruction handlers call.
use rocket.Base.{ℕ, ◌+◌, Bool, true, false, not, ◌&&◌, ◌||◌, none, some, ⊤, ◌==◌}
use rocket.Cpu.{M68kSize, M, pure, gets, modify, asks, jump, when, spend, ◌>>=◌, ◌>>◌}
use rocket.Bus
use rocket.Bus.{capture_access_fault, mask_address_24, is_valid_address}
use rocket.Exception.Process.{exception_fuel}
use rocket.Exception.Process

abbrev pub exception_levels : ℕ
exception_levels = 3

unfoldable pub m68k_exception : ℕ → M ⊤
m68k_exception = exception_fuel exception_levels

unfoldable pub m68k_read_8 : ℕ → M ℕ
m68k_read_8 = Bus.read_8 m68k_exception

unfoldable pub m68k_read_16 : ℕ → M ℕ
m68k_read_16 = Bus.read_16 m68k_exception

unfoldable pub m68k_read_32 : ℕ → M ℕ
m68k_read_32 = Bus.read_32 m68k_exception

unfoldable pub m68k_read_size : ℕ → M68kSize → M ℕ
m68k_read_size = Bus.read_size m68k_exception

unfoldable pub m68k_write_8 : ℕ → ℕ → M ⊤
m68k_write_8 = Bus.write_8 m68k_exception

unfoldable pub m68k_write_16 : ℕ → ℕ → M ⊤
m68k_write_16 = Bus.write_16 m68k_exception

unfoldable pub m68k_write_32 : ℕ → ℕ → M ⊤
m68k_write_32 = Bus.write_32 m68k_exception

unfoldable pub m68k_write_size : ℕ → ℕ → M68kSize → M ⊤
m68k_write_size = Bus.write_size m68k_exception

unfoldable pub m68k_fetch : M ℕ
m68k_fetch = Bus.fetch m68k_exception

unfoldable pub m68k_push_32 : ℕ → M ⊤
m68k_push_32 = Process.push_32 m68k_exception

unfoldable pub m68k_pop_32 : M ℕ
m68k_pop_32 = Process.pop_32 m68k_exception

unfoldable pub m68k_pop_16 : M ℕ
m68k_pop_16 = Process.pop_16 m68k_exception

unfoldable pub m68k_set_pc : ℕ → M ⊤
m68k_set_pc = Process.set_pc

unfoldable pub m68k_set_sr : ℕ → M ⊤
m68k_set_sr new_sr = modify (Process.set_sr new_sr)

unfoldable pub m68k_raise_illegal_ea : M ⊤
m68k_raise_illegal_ea = do
  m68k_exception 4
  c ← gets (λ c. c)
  when (c.fault_trap_active && c.exception_depth == 0) jump

unfoldable pub m68k_raise_odd_target_fault : ℕ → ℕ → M ⊤
m68k_raise_odd_target_fault target fault_pc = do
  spend 50
  capture_access_fault target false true
  modify (λ c. record c { fault_pc = fault_pc; fault_pc_valid = true; in_address_error = true })
  m68k_exception 3
  modify (λ c. record c { in_address_error = false })

unfoldable pub m68k_raise_bus_target_fault : ℕ → ℕ → M ⊤
m68k_raise_bus_target_fault target fault_pc = do
  spend 50
  capture_access_fault target false true
  modify (λ c. record c { fault_pc = fault_pc; fault_pc_valid = true; in_bus_error = true })
  m68k_exception 2
  modify (λ c. record c { in_bus_error = false })

unfoldable pub m68k_is_unmapped_target : ℕ → M Bool
m68k_is_unmapped_target target = do
  cb ← asks (λ h. h.read16_cb)
  c ← gets (λ c. c)
  let fetch_addr = mask_address_24 target
  elim cb [
    | some f ↦ pure false
    | none ↦ pure (not (is_valid_address c fetch_addr) || not (is_valid_address c (fetch_addr + 1)))
  ]
