-- ===== src/Move/Multiple.antt =====
-- MOVEM.
use rocket.Base.{
  ℕ, zero, suc, ◌-◌, Bool, true, false, not, ◌&&◌, ◌||◌, ⊤, ◌==◌, ltb, if◌then◌else◌, low_bits,
  test_bit, add32, sub32, sext16,
}
use rocket.Cpu.{
  M68kCpu, M68kSize, size_word, size_long, is_long, size_bytes, M, pure, gets, modify, when, set_d,
  set_a, spend, regain, ◌>>=◌, ◌>>◌,
}
use rocket.Exception.{m68k_exception, m68k_fetch, m68k_read_size, m68k_write_size}
use rocket.Ea.{movem_ea_cycles, m68k_calc_ea_addr_nocost}
use rocket.Decode.{mode_field, ea_reg_field}
use rocket.Move.Data.{write_long_downward}

-- `for (i = 0; i < 16; i++) if (mask & (1 << i)) ...`, with the rounds left, `i`, and the address
-- that each round hands to the next.
unfoldable pub for_mask : ℕ → ℕ → ℕ → (ℕ → ℕ → M ℕ) → ℕ → M ℕ
for_mask zero i mask body addr = pure addr
for_mask (suc n) i mask body addr = do
  next ← (if test_bit i mask then body i addr else pure addr)
  for_mask n (suc i) mask body next

-- Register 0 to 15 of a mask: D0 to D7, A0 to A7.
unfoldable pub mask_register : ℕ → M68kCpu → ℕ
mask_register i c = if ltb i 8 then c.d_regs i else c.a_regs (i - 8)

unfoldable pub set_mask_register : ℕ → ℕ → M ⊤
set_mask_register i v = if ltb i 8 then set_d i v else set_a (i - 8) v

unfoldable pub movem_load : M68kSize → ℕ → ℕ → M ℕ
movem_load size i addr = do
  val ← m68k_read_size addr size
  spend (if is_long size then 8 else 4)
  set_mask_register i (if is_long size then val else sext16 val)
  pure (add32 addr (size_bytes size))

unfoldable pub movem_store : M68kSize → ℕ → ℕ → M ℕ
movem_store size i addr = do
  val ← gets (mask_register i)
  m68k_write_size addr (if is_long size then val else low_bits val 16) size
  spend (if is_long size then 8 else 4)
  pure (add32 addr (size_bytes size))

-- The mask is read backwards, and the base register's initial value is stored.
unfoldable pub movem_store_down : M68kSize → ℕ → ℕ → ℕ → ℕ → M ℕ
movem_store_down size reg initial_an i addr = do
  let reg_idx = 15 - i
  let below = sub32 addr (size_bytes size)
  c ← gets (λ c. c)
  let val =
      (if not (ltb reg_idx 8) && (reg_idx - 8) == reg then initial_an else mask_register reg_idx c)
  (if is_long size
      then write_long_downward below val
      else m68k_write_size below (low_bits val 16) size)
  spend (if is_long size then 8 else 4)
  pure below

unfoldable pub movem_to_registers : ℕ → ℕ → M68kSize → ℕ → ℕ → M ⊤
movem_to_registers mode reg size mask addr = do
  when (mode == 7 && (reg == 2 || reg == 3))
      (modify (λ c. record c { operand_program_space = true }))
  end ← for_mask 16 0 mask (movem_load size) addr
  modify (λ c. record c { operand_program_space = false })
  spend 4
  when (mode == 3) (set_a reg end)

unfoldable pub movem_to_memory : ℕ → ℕ → M68kSize → ℕ → ℕ → M ⊤
movem_to_memory mode reg size mask addr =
    if mode == 4
    then (do
      initial_an ← gets (λ c. c.a_regs reg)
      end ← for_mask 16 0 mask (movem_store_down size reg initial_an) addr
      set_a reg end)
    else (do for_mask 16 0 mask (movem_store size) addr; pure tt)

-- `invalid_ea`.
unfoldable pub bad_movem_ea : Bool → ℕ → ℕ → Bool
bad_movem_ea dir_mem_to_reg mode reg =
    ltb mode 2
    || mode == 7 && reg == 4
    || mode == 7 && ltb 4 reg
    || dir_mem_to_reg && mode == 4
    || not dir_mem_to_reg && (mode == 3 || mode == 7 && (reg == 2 || reg == 3))

unfoldable pub movem_address : Bool → ℕ → ℕ → M68kSize → M ℕ
movem_address dir_mem_to_reg mode reg size =
    if mode == 4 && not dir_mem_to_reg || mode == 3
    then gets (λ c. c.a_regs reg)
    else (do ea ← m68k_calc_ea_addr_nocost mode reg size; pure ea.address)

unfoldable pub exec_movem : ℕ → M ⊤
exec_movem opcode = do
  let dir_mem_to_reg = test_bit 10 opcode
  let size = (if test_bit 6 opcode then size_long else size_word)
  let mode = mode_field opcode
  let reg = ea_reg_field opcode
  if bad_movem_ea dir_mem_to_reg mode reg then m68k_exception 4 else (do
    mask ← m68k_fetch
    addr ← movem_address dir_mem_to_reg mode reg size
    spend (movem_ea_cycles mode reg dir_mem_to_reg)
    when dir_mem_to_reg (regain 4)
    modify (λ c. record c { fault_pc = add32 c.pc 2; fault_pc_valid = true })
    if dir_mem_to_reg
        then movem_to_registers mode reg size mask addr
        else movem_to_memory mode reg size mask addr)
