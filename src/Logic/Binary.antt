-- ===== src/Logic/Binary.antt =====
-- AND, OR and EOR with a data register.
use rocket.Base.{ℕ, Bool, not, ◌&&◌, ◌||◌, ⊤, ◌==◌, ltb, if◌then◌else◌, bit_and, bit_or, bit_xor}
use rocket.Cpu.{M, pure, gets, ◌>>=◌, ◌>>◌}
use rocket.Exception.{m68k_exception}
use rocket.Ea.{m68k_calc_ea}
use rocket.Flags.{update_flags_logic}
use rocket.Decode.{
  reg_field, opmode_field, mode_field, ea_reg_field, opmode_size, not_data_alterable, merge_d,
  write_back,
}

-- The encodings that AND and OR reject.
abbrev pub bad_logic_ea : Bool → ℕ → ℕ → Bool
bad_logic_ea dir_reg_to_ea mode reg =
    dir_reg_to_ea && (ltb mode 2 || mode == 7 && ltb 1 reg)
    || not dir_reg_to_ea && (mode == 1 || mode == 7 && ltb 4 reg)

-- The bodies of AND and OR, which differ in the operation.
unfoldable pub logic_operation : (ℕ → ℕ → ℕ) → ℕ → M ⊤
logic_operation operation opcode = do
  let reg_idx = reg_field opcode
  let opmode = opmode_field opcode
  let mode = mode_field opcode
  let reg = ea_reg_field opcode
  let size = opmode_size opmode
  let dir_reg_to_ea = opmode == 4 || opmode == 5 || opmode == 6
  if opmode == 3 || opmode == 7
      then pure tt
      else if bad_logic_ea dir_reg_to_ea mode reg
      then m68k_exception 4
      else (do
        ea ← m68k_calc_ea mode reg size
        dn ← gets (λ c. c.d_regs reg_idx)
        if dir_reg_to_ea
            then (do
              write_back ea (operation ea.value dn) size
              update_flags_logic (operation ea.value dn) size)
            else (do
              merge_d reg_idx (operation dn ea.value) size
              update_flags_logic (operation dn ea.value) size))

unfoldable pub exec_and : ℕ → M ⊤
exec_and opcode = logic_operation bit_and opcode

unfoldable pub exec_or : ℕ → M ⊤
exec_or opcode = logic_operation bit_or opcode

unfoldable pub exec_eor : ℕ → M ⊤
exec_eor opcode = do
  let opmode = opmode_field opcode
  let mode = mode_field opcode
  let reg = ea_reg_field opcode
  let size = opmode_size opmode
  if not (opmode == 4 || opmode == 5 || opmode == 6)
      then pure tt
      else if not_data_alterable mode reg
      then m68k_exception 4
      else (do
        ea ← m68k_calc_ea mode reg size
        src ← gets (λ c. c.d_regs (reg_field opcode))
        let result = bit_xor ea.value src
        write_back ea result size
        update_flags_logic result size)
