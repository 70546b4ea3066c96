-- ===== src/Bits/Handlers.antt =====
-- BTST, BSET, BCLR, BCHG and TAS.
use rocket.Base.{
  ℕ, ◌-◌, ◌^◌, Bool, true, not, ◌&&◌, ◌||◌, none, some, ⊤, ◌==◌, ltb, if◌then◌else◌, bit_and,
  bit_or, bit_xor, low_bits, test_bit,
}
use rocket.Cpu.{size_byte, sr_z, sr_n, M, pure, gets, asks, call, modify_sr, set_d, ◌>>=◌, ◌>>◌}
use rocket.Exception.{m68k_exception, m68k_fetch, m68k_write_8}
use rocket.Ea.{m68k_calc_ea}
use rocket.Flags.{raise_if}
use rocket.Decode.{reg_field, mode_field, ea_reg_field, not_data_alterable, set_low_byte}

-- The index of the bit that `get_bit_mask` selects: the mask is `1 << index`.
abbrev pub bit_index : ℕ → Bool → ℕ
bit_index bit_num is_register = if is_register then low_bits bit_num 5 else low_bits bit_num 3

unfoldable pub get_bit_mask : ℕ → Bool → ℕ
get_bit_mask bit_num is_register = 2 ^ bit_index bit_num is_register

-- The bit number, from the register of a dynamic opcode or from an extension word.
unfoldable pub bit_number : ℕ → M ℕ
bit_number opcode =
    if test_bit 8 opcode
    then gets (λ c. c.d_regs (reg_field opcode))
    else (do word ← m68k_fetch; pure (low_bits word 8))

-- `if (data & mask) sr &= ~Z; else sr |= Z`.
unfoldable pub z_of_bit : ℕ → ℕ → ℕ → ℕ
z_of_bit operand mask sr = if bit_and operand mask == 0 then bit_or sr 4 else bit_and sr 0xFFFB

unfoldable pub exec_btst : ℕ → M ⊤
exec_btst opcode = do
  let mode = mode_field opcode
  let reg = ea_reg_field opcode
  if mode == 1 || mode == 7 && (ltb 4 reg || not (test_bit 8 opcode) && reg == 4)
      then m68k_exception 4
      else (do
        bit_num ← bit_number opcode
        let is_register = mode == 0
        let mask = get_bit_mask bit_num is_register
        operand ←
            (if is_register
              then gets (λ c. c.d_regs reg)
              else (do ea ← m68k_calc_ea mode reg size_byte; pure (low_bits ea.value 8)))
        modify_sr (z_of_bit operand mask))

-- The bodies of BSET, BCLR and BCHG, which differ in how the mask changes the data.
unfoldable pub update_bit : (ℕ → ℕ → ℕ) → ℕ → M ⊤
update_bit change opcode = do
  let mode = mode_field opcode
  let reg = ea_reg_field opcode
  if not_data_alterable mode reg then m68k_exception 4 else (do
    bit_num ← bit_number opcode
    let is_register = mode == 0
    let mask = get_bit_mask bit_num is_register
    if is_register
        then (do
          operand ← gets (λ c. c.d_regs reg)
          modify_sr (z_of_bit operand mask)
          set_d reg (change operand mask))
        else (do
          ea ← m68k_calc_ea mode reg size_byte
          let operand = low_bits ea.value 8
          modify_sr (z_of_bit operand mask)
          m68k_write_8 ea.address (change operand mask)))

-- `data & ~mask`.
abbrev pub clear_bits : ℕ → ℕ → ℕ
clear_bits operand mask = bit_and operand (2 ^ 32 - 1 - mask)

unfoldable pub exec_bset : ℕ → M ⊤
exec_bset opcode = update_bit bit_or opcode

unfoldable pub exec_bclr : ℕ → M ⊤
exec_bclr opcode = update_bit clear_bits opcode

unfoldable pub exec_bchg : ℕ → M ⊤
exec_bchg opcode = update_bit bit_xor opcode

unfoldable pub flags_tas : ℕ → ℕ → ℕ
flags_tas operand sr =
    raise_if (test_bit 7 operand) sr_n (raise_if (operand == 0) sr_z (bit_and sr 0xFFF0))

-- The host may refuse the write of the indivisible cycle.
unfoldable pub tas_allows_write : M Bool
tas_allows_write = do
  cb ← asks (λ h. h.tas_cb)
  elim cb [ none ↦ pure true | some f ↦ do r ← call f; pure (not (r == 0)) ]

unfoldable pub exec_tas : ℕ → M ⊤
exec_tas opcode = do
  let mode = mode_field opcode
  let reg = ea_reg_field opcode
  if not_data_alterable mode reg then m68k_exception 4 else (do
    ea ← m68k_calc_ea mode reg size_byte
    let operand = low_bits ea.value 8
    modify_sr (flags_tas operand)
    allow_write ← tas_allows_write
    if allow_write
        then (if ea.is_reg && not ea.is_addr
            then set_low_byte ea.reg_num (bit_or operand 0x80)
            else m68k_write_8 ea.address (bit_or operand 0x80))
        else pure tt)
