-- ===== src/Arith/Add.antt =====
-- ADD, SUB, ADDQ, SUBQ, ADDI, SUBI, NEG and EXT.
use rocket.Base.{
  ℕ, Bool, not, ◌&&◌, ◌||◌, ⊤, ◌==◌, ltb, if◌then◌else◌, add32, sub32, sext8, sext16, bit_and,
  bit_or, low_bits,
}
use rocket.Cpu.{M68kSize, size_word, size_long, is_byte, M, pure, gets, set_a, set_d, ◌>>=◌, ◌>>◌}
use rocket.Exception.{m68k_exception}
use rocket.Ea.{m68k_calc_ea}
use rocket.Flags.{update_flags_add, update_flags_sub, update_flags_logic}
use rocket.Decode.{
  reg_field, opmode_field, mode_field, ea_reg_field, size_field, with_size, opmode_size,
  not_data_alterable, merge_d, write_back, fetch_immediate,
}

-- A word source of an address operation is sign-extended.
abbrev pub address_source : M68kSize → ℕ → ℕ
address_source size_word v = sext16 v
address_source _ v = v

-- The encodings that ADD and SUB reject.
abbrev pub bad_add_ea : Bool → M68kSize → ℕ → ℕ → Bool
bad_add_ea dir_reg_to_ea size mode reg =
    dir_reg_to_ea && (ltb mode 2 || mode == 7 && ltb 1 reg)
    || not dir_reg_to_ea && (mode == 1 && is_byte size || mode == 7 && ltb 4 reg)

unfoldable pub exec_add : ℕ → M ⊤
exec_add opcode = do
  let reg_idx = reg_field opcode
  let opmode = opmode_field opcode
  let mode = mode_field opcode
  let reg = ea_reg_field opcode
  let size = opmode_size opmode
  let dir_reg_to_ea = opmode == 4 || opmode == 5 || opmode == 6
  if opmode == 3 || opmode == 7
      then (if mode == 7 && ltb 4 reg then m68k_exception 4 else (do
        ea ← m68k_calc_ea mode reg size
        an ← gets (λ c. c.a_regs reg_idx)
        set_a reg_idx (add32 an (address_source size ea.value))))
      else if bad_add_ea dir_reg_to_ea size mode reg
      then m68k_exception 4
      else (do
        ea ← m68k_calc_ea mode reg size
        dn ← gets (λ c. c.d_regs reg_idx)
        if dir_reg_to_ea
            then (do
              let result = add32 ea.value dn
              if ea.is_reg && ea.is_addr then pure tt else write_back ea result size
              update_flags_add dn ea.value result size)
            else (do
              let result = add32 dn ea.value
              merge_d reg_idx result size
              update_flags_add ea.value dn result size))

unfoldable pub exec_sub : ℕ → M ⊤
exec_sub opcode = do
  let reg_idx = reg_field opcode
  let opmode = opmode_field opcode
  let mode = mode_field opcode
  let reg = ea_reg_field opcode
  let size = opmode_size opmode
  let dir_reg_to_ea = opmode == 4 || opmode == 5 || opmode == 6
  if opmode == 3 || opmode == 7
      then (if mode == 7 && ltb 4 reg then m68k_exception 4 else (do
        ea ← m68k_calc_ea mode reg size
        an ← gets (λ c. c.a_regs reg_idx)
        set_a reg_idx (sub32 an (address_source size ea.value))))
      else if bad_add_ea dir_reg_to_ea size mode reg
      then m68k_exception 4
      else (do
        ea ← m68k_calc_ea mode reg size
        dn ← gets (λ c. c.d_regs reg_idx)
        if dir_reg_to_ea
            then (do
              let result = sub32 ea.value dn
              write_back ea result size
              update_flags_sub dn ea.value result size)
            else (do
              let result = sub32 dn ea.value
              merge_d reg_idx result size
              update_flags_sub ea.value dn result size))

-- `data` of ADDQ and SUBQ: 0 stands for 8.
abbrev pub quick_data : ℕ → ℕ
quick_data opcode = if reg_field opcode == 0 then 8 else reg_field opcode

unfoldable pub exec_addq : ℕ → M ⊤
exec_addq opcode = with_size (size_field opcode) λ size. do
  let src = quick_data opcode
  let mode = mode_field opcode
  let reg = ea_reg_field opcode
  if mode == 1
      then (if is_byte size
          then m68k_exception 4
          else (do val ← gets (λ c. c.a_regs reg); set_a reg (add32 val src)))
      else if mode == 7 && ltb 1 reg
      then m68k_exception 4
      else (do
        ea ← m68k_calc_ea mode reg size
        let result = add32 ea.value src
        write_back ea result size
        update_flags_add src ea.value result size)

unfoldable pub exec_subq : ℕ → M ⊤
exec_subq opcode = with_size (size_field opcode) λ size. do
  let src = quick_data opcode
  let mode = mode_field opcode
  let reg = ea_reg_field opcode
  if mode == 1
      then (if is_byte size
          then m68k_exception 4
          else (do val ← gets (λ c. c.a_regs reg); set_a reg (sub32 val src)))
      else if mode == 7 && ltb 1 reg
      then m68k_exception 4
      else (do
        ea ← m68k_calc_ea mode reg size
        let result = sub32 ea.value src
        write_back ea result size
        update_flags_sub src ea.value result size)

unfoldable pub exec_addi : ℕ → M ⊤
exec_addi opcode = with_size (size_field opcode) λ size. do
  let mode = mode_field opcode
  let reg = ea_reg_field opcode
  if not_data_alterable mode reg then m68k_exception 4 else (do
    imm ← fetch_immediate size
    ea ← m68k_calc_ea mode reg size
    let result = add32 ea.value imm
    write_back ea result size
    update_flags_add imm ea.value result size)

unfoldable pub exec_subi : ℕ → M ⊤
exec_subi opcode = with_size (size_field opcode) λ size. do
  let mode = mode_field opcode
  let reg = ea_reg_field opcode
  if not_data_alterable mode reg then m68k_exception 4 else (do
    imm ← fetch_immediate size
    ea ← m68k_calc_ea mode reg size
    let result = sub32 ea.value imm
    write_back ea result size
    update_flags_sub imm ea.value result size)

unfoldable pub exec_neg : ℕ → M ⊤
exec_neg opcode = with_size (size_field opcode) λ size. do
  let mode = mode_field opcode
  let reg = ea_reg_field opcode
  if not_data_alterable mode reg then m68k_exception 4 else (do
    ea ← m68k_calc_ea mode reg size
    let result = sub32 0 ea.value
    write_back ea result size
    update_flags_sub ea.value 0 result size)

unfoldable pub exec_ext : ℕ → M ⊤
exec_ext opcode = do
  let opmode = opmode_field opcode
  let reg = ea_reg_field opcode
  val ← gets (λ c. c.d_regs reg)
  if opmode == 2
      then (do
        let result = low_bits (sext8 val) 16
        set_d reg (bit_or (bit_and val 0xFFFF0000) result)
        update_flags_logic result size_word)
      else if opmode == 3
      then (do set_d reg (sext16 val); update_flags_logic (sext16 val) size_long)
      else pure tt
