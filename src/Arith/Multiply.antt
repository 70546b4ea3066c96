-- ===== src/Arith/Multiply.antt =====
-- MULU, MULS, DIVU and DIVS.
use rocket.Base.{
  ℕ, zero, suc, ◌+◌, ◌-◌, ◌*◌, ◌/◌, ◌%◌, ℤ, pos, negsuc, ◌*ℤ◌, ◌/ℤ◌, ◌%ℤ◌, ltb_ℤ, is_neg, abs,
  to_u32, s16, s32, Bool, ◌||◌, ⊤, ◌==◌, ltb, leb, if◌then◌else◌, bit_and, bit_or, bit_xor, shl,
  shr, low_bits, test_bit, u16, u32, sub32,
}
use rocket.Cpu.{size_word, size_long, sr_z, sr_n, M, gets, modify_sr, set_d, spend, ◌>>=◌, ◌>>◌}
use rocket.Exception.{m68k_exception}
use rocket.Ea.{m68k_calc_ea}
use rocket.Flags.{raise_if, update_flags_logic}
use rocket.Decode.{reg_field, opmode_field, mode_field, ea_reg_field, not_data}

-- `for (; d; d >>= 1) if (d & 1) m++;`, with a round for each bit of `d`.
unfoldable pub count_ones : ℕ → ℕ → ℕ → ℕ
count_ones zero d m = m
count_ones (suc rounds) d m =
    let rest = count_ones rounds (shr d 1) (if test_bit 0 d then m + 1 else m) in
    if d == 0 then m else rest

unfoldable pub multiply : Bool → ℕ → ℕ → ℕ
multiply is_signed op1 op2 = if is_signed then to_u32 (s16 op1 *ℤ s16 op2) else u32 (op1 * op2)

unfoldable pub multiply_cycles : Bool → ℕ → ℕ
multiply_cycles is_signed op2 =
    let d = (if is_signed then u16 (bit_xor (shl op2 1) op2) else u16 op2) in
    2 * count_ones 16 d 17 + 4

unfoldable pub exec_mul : ℕ → M ⊤
exec_mul opcode = do
  let reg_idx = reg_field opcode
  let mode = mode_field opcode
  let reg = ea_reg_field opcode
  let is_signed = opmode_field opcode == 7
  if not_data mode reg then m68k_exception 4 else (do
    ea ← m68k_calc_ea mode reg size_word
    op1 ← gets (λ c. low_bits (c.d_regs reg_idx) 16)
    let op2 = low_bits ea.value 16
    let result = multiply is_signed op1 op2
    spend (multiply_cycles is_signed op2)
    set_d reg_idx result
    update_flags_logic result size_long)

-- One round of the DIVU timing walk, on the partial remainder and the count.
unfoldable pub divu_round : ℕ → ℕ → ℕ → ℕ × ℕ
divu_round hdivisor d m =
    let d2 = u32 (shl d 1) in
    if test_bit 31 d
    then (sub32 d2 hdivisor, m)
    else if leb hdivisor d2
    then (sub32 d2 hdivisor, m + 1)
    else (d2, m + 2)

-- The walk takes 15 rounds.
unfoldable pub divu_walk : ℕ → ℕ → ℕ → ℕ → ℕ
divu_walk zero hdivisor d m = m
divu_walk (suc rounds) hdivisor d m =
    let (d', m') = divu_round hdivisor d m in divu_walk rounds hdivisor d' m'

unfoldable pub divu_cycles : ℕ → ℕ → ℕ
divu_cycles dividend divisor =
    if leb divisor (shr dividend 16) then 10 else 2 * divu_walk 15 (shl divisor 16) dividend 38

-- The 15 rounds of the DIVS timing walk.
unfoldable pub divs_walk : ℕ → ℕ → ℕ → ℕ
divs_walk zero aquot m = m
divs_walk (suc rounds) aquot m =
    divs_walk rounds (u32 (shl aquot 1)) (if test_bit 15 aquot then m else m + 1)

unfoldable pub divs_cycles : ℤ → ℤ → ℕ
divs_cycles sd sv =
    let m = (if is_neg sd then 7 else 6) in
    if leb (abs sv) (shr (abs sd) 16)
    then (m + 2) * 2
    else let base =
        (if is_neg sv then m + 55 else (if is_neg sd then m + 55 + 1 else m + 55 - 1)) in
      2 * divs_walk 15 (abs sd / abs sv) base

-- `sr &= ~(N | Z | V | C)` and then V and N on overflow, or N and Z of the quotient.
unfoldable pub flags_div_overflow : ℕ → ℕ
flags_div_overflow sr = bit_or (bit_and sr 0xFFF0) 0x000A

unfoldable pub flags_div : ℕ → ℕ → ℕ
flags_div quotient sr =
    raise_if (quotient == 0) sr_z (raise_if (test_bit 15 quotient) sr_n (bit_and sr 0xFFF0))

unfoldable pub exec_div : ℕ → M ⊤
exec_div opcode = do
  let reg_idx = reg_field opcode
  let mode = mode_field opcode
  let reg = ea_reg_field opcode
  let is_signed = opmode_field opcode == 7
  if not_data mode reg then m68k_exception 4 else (do
    ea ← m68k_calc_ea mode reg size_word
    dividend ← gets (λ c. c.d_regs reg_idx)
    let divisor = low_bits ea.value 16
    if divisor == 0
        then m68k_exception 5
        else if is_signed
        then (do
          let quot = s32 dividend /ℤ s16 divisor
          let rem = s32 dividend %ℤ s16 divisor
          spend (divs_cycles (s32 dividend) (s16 divisor))
          if ltb_ℤ quot (negsuc 32767) || ltb_ℤ (pos 32767) quot
              then modify_sr flags_div_overflow
              else (do
                let quotient = low_bits (to_u32 quot) 16
                let remainder = low_bits (to_u32 rem) 16
                set_d reg_idx (bit_or (shl remainder 16) quotient)
                modify_sr (flags_div quotient)))
        else (do
          let quotient = dividend / divisor
          let remainder = dividend % divisor
          spend (divu_cycles dividend divisor)
          if ltb 0xFFFF quotient then modify_sr flags_div_overflow else (do
            set_d reg_idx (bit_or (shl remainder 16) (low_bits quotient 16))
            modify_sr (flags_div quotient))))
