-- ===== src/Ea/Calc.antt =====
-- The calculation of an operand's address and value.
use rocket.Base.{
  ℕ, ◌-◌, Bool, true, false, ◌&&◌, ◌||◌, ⊤, ◌==◌, ltb, if◌then◌else◌, bit_or, shl, shr, low_bits,
  test_bit, add32, sub32, sext8, sext16,
}
use rocket.Cpu.{
  M68kCpu, M68kSize, size_word, size_long, is_long, is_byte, size_bytes, M, pure, gets, modify,
  set_a, spend, ◌>>=◌, ◌>>◌,
}
use rocket.Exception.{m68k_fetch, m68k_read_size, m68k_raise_illegal_ea}
use rocket.Ea.Cycles.{ea_cycles, control_ea_cycles}

pub record M68kEa : Type 0 where
  pub value : ℕ
  pub address : ℕ
  pub is_reg : Bool
  pub reg_num : ℕ
  pub is_addr : Bool

abbrev pub zero_ea : M68kEa
zero_ea = record { value = 0; address = 0; is_reg = false; reg_num = 0; is_addr = false }

-- The offset of the pushed PC from the prefetch position, where the mode has one.
unfoldable pub set_fault_pc : ℕ → ℕ → M68kSize → M ⊤
set_fault_pc mode reg size =
    let latch = (λ (offset : ℕ).
      modify (λ c. record c { fault_pc = add32 c.pc offset; fault_pc_valid = true })) in
    if mode == 2 || mode == 3 || mode == 5 || mode == 6
    then latch 0
    else if mode == 4
    then latch (if is_long size then 0 else 2)
    else if mode == 7
    then (if reg == 1
        then latch 4
        else if reg == 0
        then latch 2
        else if reg == 2 || reg == 3
        then latch 0
        else pure tt)
    else pure tt

-- `(size == SIZE_BYTE && reg == 7) ? 2 : size`: A7 stays even.
unfoldable pub ea_step : ℕ → M68kSize → ℕ
ea_step reg size = if is_byte size && reg == 7 then 2 else size_bytes size

-- The index register and displacement of a brief extension word, added to a base.
unfoldable pub index_address : ℕ → ℕ → M68kCpu → ℕ
index_address base ext c =
    let xn_reg_num = low_bits (shr ext 12) 3 in
    let xn = (if test_bit 15 ext then c.a_regs xn_reg_num else c.d_regs xn_reg_num) in
    let xn_val = (if test_bit 11 ext then xn else sext16 xn) in
    add32 (add32 base xn_val) (sext8 ext)

unfoldable pub memory_operand : ℕ → M68kSize → Bool → M M68kEa
memory_operand address size fetch_value =
    if fetch_value
    then (do
      value ← m68k_read_size address size
      pure (record zero_ea { value = value; address = address }))
    else pure (record zero_ea { address = address })

-- PC-relative operands are read from program space.
unfoldable pub program_operand : ℕ → M68kSize → Bool → M M68kEa
program_operand address size fetch_value =
    if fetch_value
    then (do
      modify (λ c. record c { operand_program_space = true })
      value ← m68k_read_size address size
      modify (λ c. record c { operand_program_space = false })
      pure (record zero_ea { value = value; address = address }))
    else pure (record zero_ea { address = address })

unfoldable pub postinc_operand : ℕ → M68kSize → Bool → M M68kEa
postinc_operand reg size fetch_value = do
  address ← gets (λ c. c.a_regs reg)
  if fetch_value && is_long size
      then (do
        value ← m68k_read_size address size
        an ← gets (λ c. c.a_regs reg)
        set_a reg (add32 an (size_bytes size))
        pure (record zero_ea { value = value; address = address }))
      else (do
        set_a reg (add32 address (ea_step reg size))
        memory_operand address size fetch_value)

unfoldable pub fetch_long : M ℕ
fetch_long = do high ← m68k_fetch; low ← m68k_fetch; pure (bit_or (shl high 16) low)

unfoldable pub immediate_operand : M68kSize → M M68kEa
immediate_operand size =
    if is_long size
    then (do value ← fetch_long; pure (record zero_ea { value = value; is_reg = true }))
    else (do
      word ← m68k_fetch
      let value = (if is_byte size then low_bits word 8 else word)
      pure (record zero_ea { value = value; is_reg = true }))

-- Mode 7, by its register field.
unfoldable pub calc_ea_mode7 : ℕ → M68kSize → Bool → M M68kEa
calc_ea_mode7 reg size fetch_value =
    if reg == 0
    then (do ext ← m68k_fetch; memory_operand (sext16 ext) size fetch_value)
    else if reg == 1
    then (do address ← fetch_long; memory_operand address size fetch_value)
    else if reg == 4
    then immediate_operand size
    else if reg == 2
    then (do
      ext ← m68k_fetch
      pc ← gets (λ c. c.pc)
      program_operand (add32 (sub32 pc 2) (sext16 ext)) size fetch_value)
    else if reg == 3
    then (do
      ext ← m68k_fetch
      c ← gets (λ c. c)
      program_operand (index_address (sub32 c.pc 2) ext c) size fetch_value)
    else (do m68k_raise_illegal_ea; pure zero_ea)

unfoldable pub calc_ea_ex : ℕ → ℕ → M68kSize → Bool → M M68kEa
calc_ea_ex mode reg size fetch_value = do
  set_fault_pc mode reg size
  c ← gets (λ c. c)
  if mode == 0
      then pure (record zero_ea { value = c.d_regs reg; is_reg = true; reg_num = reg })
      else if mode == 1
      then pure (record {
        value = c.a_regs reg;
        address = 0;
        is_reg = true;
        reg_num = reg;
        is_addr = true;
      })
      else if mode == 2
      then memory_operand (c.a_regs reg) size fetch_value
      else if mode == 3
      then postinc_operand reg size fetch_value
      else if mode == 4
      then (do
        let address = sub32 (c.a_regs reg) (ea_step reg size)
        set_a reg address
        memory_operand address size fetch_value)
      else if mode == 5
      then (do
        ext ← m68k_fetch
        an ← gets (λ c. c.a_regs reg)
        memory_operand (add32 an (sext16 ext)) size fetch_value)
      else if mode == 6
      then (do
        ext ← m68k_fetch
        c ← gets (λ c. c)
        memory_operand (index_address (c.a_regs reg) ext c) size fetch_value)
      else if mode == 7
      then calc_ea_mode7 reg size fetch_value
      else pure zero_ea

-- A long operand spends the word share of its cost before the read, and the rest after it.
unfoldable pub m68k_calc_ea : ℕ → ℕ → M68kSize → M M68kEa
m68k_calc_ea mode reg size = do
  let full = ea_cycles mode reg size
  let pre = (if is_long size then ea_cycles mode reg size_word else full)
  spend pre
  ea ← calc_ea_ex mode reg size true
  spend (full - pre)
  pure ea

unfoldable pub m68k_calc_ea_addr : ℕ → ℕ → M68kSize → M M68kEa
m68k_calc_ea_addr mode reg size = do spend (ea_cycles mode reg size); calc_ea_ex mode reg size false

unfoldable pub m68k_calc_ea_ctl : ℕ → ℕ → Bool → M M68kEa
m68k_calc_ea_ctl mode reg is_jmp =
    if ltb mode 2 || mode == 3 || mode == 4 || mode == 7 && ltb 3 reg
    then (do m68k_raise_illegal_ea; pure zero_ea)
    else (do spend (control_ea_cycles mode reg is_jmp); calc_ea_ex mode reg size_long false)

unfoldable pub m68k_calc_ea_addr_nocost : ℕ → ℕ → M68kSize → M M68kEa
m68k_calc_ea_addr_nocost mode reg size = calc_ea_ex mode reg size false
