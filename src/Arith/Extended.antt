-- ===== src/Arith/Extended.antt =====
-- ADDX, SUBX and NEGX.
use rocket.Base.{
  ℕ, Bool, true, not, ◌&&◌, ◌||◌, ⊤, ◌==◌, if◌then◌else◌, bit_and, bit_or, shl, test_bit, add32,
  sub32,
}
use rocket.Cpu.{
  M68kSize, is_long, is_byte, sr_c, sr_v, sr_z, sr_n, sr_x, M, pure, gets, modify, modify_sr, set_a,
  spend, ◌>>=◌, ◌>>◌,
}
use rocket.Exception.{m68k_exception, m68k_read_16, m68k_read_size, m68k_write_size}
use rocket.Ea.{m68k_calc_ea}
use rocket.Flags.{raise_if, msb, is_zero, flags_add, flags_sub}
use rocket.Decode.{
  reg_field, mode_field, ea_reg_field, size_field, with_size, not_data_alterable, merge_d,
  write_back, extend_bit,
}

unfoldable pub addx_read_predec : ℕ → M68kSize → M ℕ
addx_read_predec reg size = do
  an ← gets (λ c. c.a_regs reg)
  if is_long size
      then (do
        let base = sub32 an 4
        lo ← m68k_read_16 (add32 base 2)
        hi ← m68k_read_16 base
        set_a reg base
        pure (bit_or (shl hi 16) lo))
      else (do
        let address = sub32 an (if is_byte size then (if reg == 7 then 2 else 1) else 2)
        set_a reg address
        m68k_read_size address size)

-- A chained operation clears Z on a result that is not zero, and leaves it else.
unfoldable pub sticky_zero : Bool → ℕ → M68kSize → ℕ → ℕ
sticky_zero old_z result size sr =
    if not (is_zero size result)
    then bit_and sr 0xFFFB
    else if old_z
    then bit_or sr 4
    else bit_and sr 0xFFFB

unfoldable pub flags_addx : ℕ → ℕ → ℕ → M68kSize → ℕ → ℕ
flags_addx src dest result size sr =
    sticky_zero (test_bit sr_z sr) result size (flags_add src dest result size sr)

unfoldable pub flags_subx : ℕ → ℕ → ℕ → M68kSize → ℕ → ℕ
flags_subx src dest result size sr =
    sticky_zero (test_bit sr_z sr) result size (flags_sub src dest result size sr)

-- The operands of ADDX and SUBX: of two registers, or below two address registers, with the
-- costs that a faulted read has already spent.
unfoldable pub extended_operands : Bool → ℕ → ℕ → M68kSize → M (ℕ × ℕ)
extended_operands rm rx ry size =
    if rm
    then (do
      modify (λ c. record c { fault_pc = add32 c.pc 2; fault_pc_valid = true })
      spend 6
      src ← addx_read_predec ry size
      spend (if is_long size then 8 else 4)
      dest ← addx_read_predec rx size
      pure (src, dest))
    else gets (λ c. (c.d_regs ry, c.d_regs rx))

unfoldable pub extended_result : Bool → ℕ → ℕ → M68kSize → M ⊤
extended_result rm rx result size =
    if rm
    then (do address ← gets (λ c. c.a_regs rx); m68k_write_size address result size)
    else merge_d rx result size

unfoldable pub exec_addx : ℕ → M ⊤
exec_addx opcode = with_size (size_field opcode) λ size. do
  let rx = reg_field opcode
  let rm = test_bit 3 opcode
  (src, dest) ← extended_operands rm rx (ea_reg_field opcode) size
  x ← gets (λ c. extend_bit c.sr)
  let result = add32 (add32 dest src) x
  extended_result rm rx result size
  modify_sr (flags_addx src dest result size)

unfoldable pub exec_subx : ℕ → M ⊤
exec_subx opcode = with_size (size_field opcode) λ size. do
  let rx = reg_field opcode
  let rm = test_bit 3 opcode
  (src, dest) ← extended_operands rm rx (ea_reg_field opcode) size
  x ← gets (λ c. extend_bit c.sr)
  let result = sub32 (sub32 dest src) x
  extended_result rm rx result size
  modify_sr (flags_subx src dest result size)

unfoldable pub flags_negx : ℕ → ℕ → M68kSize → ℕ → ℕ
flags_negx src result size sr =
    let sm = msb size src in
    let rm = msb size result in
    raise_if (sm || rm) sr_x (
      raise_if (sm || rm) sr_c (
        raise_if (sm && rm) sr_v (
          raise_if (is_zero size result && test_bit sr_z sr) sr_z
            (raise_if rm sr_n (bit_and sr 0xFFE0)))))

unfoldable pub exec_negx : ℕ → M ⊤
exec_negx opcode = with_size (size_field opcode) λ size. do
  let mode = mode_field opcode
  let reg = ea_reg_field opcode
  if not_data_alterable mode reg then m68k_exception 4 else (do
    ea ← m68k_calc_ea mode reg size
    x ← gets (λ c. extend_bit c.sr)
    let result = sub32 (sub32 0 ea.value) x
    write_back ea result size
    modify_sr (flags_negx ea.value result size))
