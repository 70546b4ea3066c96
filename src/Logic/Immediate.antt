-- ===== src/Logic/Immediate.antt =====
-- ANDI, ORI and EORI, with their forms on the condition codes and on the status register.
use rocket.Base.{ℕ, ⊤, ◌==◌, if◌then◌else◌, bit_and, bit_or, bit_xor, low_bits}
use rocket.Cpu.{M, gets, modify_sr, ◌>>=◌, ◌>>◌}
use rocket.Exception.{m68k_exception, m68k_fetch, m68k_set_sr}
use rocket.Ea.{m68k_calc_ea}
use rocket.Flags.{update_flags_logic}
use rocket.Decode.{
  mode_field, ea_reg_field, size_field, with_size, not_data_alterable, write_back, fetch_immediate,
}
use rocket.Control.{privileged}

-- The form on the condition codes.
unfoldable pub immediate_to_ccr : (ℕ → ℕ → ℕ) → M ⊤
immediate_to_ccr operation = do
  word ← m68k_fetch
  modify_sr (λ sr. bit_or (bit_and sr 0xFFE0) (operation (low_bits sr 5) (low_bits word 5)))

-- The privileged form on the status register.
unfoldable pub immediate_to_sr : (ℕ → ℕ → ℕ) → M ⊤
immediate_to_sr operation =
    privileged (do word ← m68k_fetch; sr ← gets (λ c. c.sr); m68k_set_sr (operation sr word))

-- The bodies of the three, which differ in the operation and in two opcodes.
unfoldable pub immediate_operation : (ℕ → ℕ → ℕ) → ℕ → ℕ → ℕ → M ⊤
immediate_operation operation ccr_opcode sr_opcode opcode =
    if opcode == ccr_opcode
    then immediate_to_ccr operation
    else if opcode == sr_opcode
    then immediate_to_sr operation
    else with_size (size_field opcode) λ size. do
      let mode = mode_field opcode
      let reg = ea_reg_field opcode
      if not_data_alterable mode reg then m68k_exception 4 else (do
        imm ← fetch_immediate size
        ea ← m68k_calc_ea mode reg size
        let result = operation ea.value imm
        write_back ea result size
        update_flags_logic result size)

unfoldable pub exec_andi : ℕ → M ⊤
exec_andi opcode = immediate_operation bit_and 0x023C 0x027C opcode

unfoldable pub exec_ori : ℕ → M ⊤
exec_ori opcode = immediate_operation bit_or 0x003C 0x007C opcode

unfoldable pub exec_eori : ℕ → M ⊤
exec_eori opcode = immediate_operation bit_xor 0x0A3C 0x0A7C opcode
