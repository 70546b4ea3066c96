-- ===== src/Step/Dyadic.antt =====
-- Lines 8, 9, B, C, D and E: arithmetic, logic and shifts of two operands.
use rocket.Base.{
  ℕ, ◌+◌, ◌*◌, not, ◌&&◌, ◌||◌, Option, ⊤, ◌==◌, leb, if◌then◌else◌, bit_and, shr, low_bits,
  test_bit,
}
use rocket.Cpu.{is_long, M, gets, ◌>>=◌}
use rocket.Decode.{reg_field, opmode_field, mode_field, ea_reg_field, size_field}
use rocket.Arith.{
  exec_add, exec_sub, exec_addx, exec_subx, exec_cmp, exec_mul, exec_div, exec_abcd, exec_sbcd,
}
use rocket.Logic.{exec_or, exec_and, exec_eor, exec_shift}
use rocket.Move.{exec_exg}
use rocket.Step.Cost.{alu_base_cycles, alu_size, run}

-- The base cost of an operation with a direction bit.
unfoldable pub dyadic_cycles : ℕ → ℕ
dyadic_cycles opcode =
    alu_base_cycles (low_bits (shr opcode 8) 1) (alu_size (opmode_field opcode)) (mode_field opcode)
      (ea_reg_field opcode)

unfoldable pub step_line_8 : ℕ → M (Option ℕ)
step_line_8 opcode =
    let opmode = opmode_field opcode in
    let mode = mode_field opcode in
    if opmode == 3 || opmode == 7
    then run (exec_div opcode) 0
    else if opmode == 4 && (mode == 0 || mode == 1)
    then run (exec_sbcd opcode) (if mode == 1 then 18 else 6)
    else run (exec_or opcode) (dyadic_cycles opcode)

-- ADDX and SUBX, and ADD and SUB with their address forms.
unfoldable pub extended_cycles : ℕ → ℕ
extended_cycles opcode =
    let long = is_long (alu_size (opmode_field opcode)) in
    if mode_field opcode == 1 then (if long then 16 else 8) else (if long then 8 else 4)

unfoldable pub sum_cycles : ℕ → ℕ
sum_cycles opcode =
    let opmode = opmode_field opcode in
    let mode = mode_field opcode in
    if opmode == 7
    then (if leb mode 1 || mode == 7 && ea_reg_field opcode == 4 then 8 else 6)
    else if opmode == 3
    then 8
    else dyadic_cycles opcode

unfoldable pub step_sum : (ℕ → M ⊤) → (ℕ → M ⊤) → ℕ → M (Option ℕ)
step_sum extended plain opcode =
    let opmode = opmode_field opcode in
    let mode = mode_field opcode in
    if leb 4 opmode && leb opmode 6 && (mode == 0 || mode == 1)
    then run (extended opcode) (extended_cycles opcode)
    else run (plain opcode) (sum_cycles opcode)

unfoldable pub step_line_9 : ℕ → M (Option ℕ)
step_line_9 = step_sum exec_subx exec_sub

unfoldable pub step_line_b : ℕ → M (Option ℕ)
step_line_b opcode =
    let opmode = opmode_field opcode in
    let mode = mode_field opcode in
    let is_cmpm = leb 4 opmode && leb opmode 6 && mode == 1 in
    let is_eor = leb 4 opmode && leb opmode 6 && not is_cmpm in
    if is_eor
    then run (exec_eor opcode) (alu_base_cycles 1 (alu_size opmode) mode (ea_reg_field opcode))
    else run (exec_cmp opcode) (
        if opmode == 3 || opmode == 7
        then 6
        else if is_cmpm
        then (if opmode == 6 then 8 else 4)
        else (if is_long (alu_size opmode) then 6 else 4))

unfoldable pub step_line_c : ℕ → M (Option ℕ)
step_line_c opcode =
    let opmode = opmode_field opcode in
    let mode = mode_field opcode in
    let form = low_bits (shr opcode 3) 5 in
    if opmode == 3 || opmode == 7
    then run (exec_mul opcode) 0
    else if opmode == 4 && (mode == 0 || mode == 1)
    then run (exec_abcd opcode) (if mode == 1 then 18 else 6)
    else if opmode == 5 && form == 0x08
        || opmode == 5 && form == 0x09
        || opmode == 6 && form == 0x11
    then run (exec_exg opcode) 6
    else run (exec_and opcode) (dyadic_cycles opcode)

unfoldable pub step_line_d : ℕ → M (Option ℕ)
step_line_d = step_sum exec_addx exec_add

-- The count register is read before the shift, which may change it.
unfoldable pub step_line_e : ℕ → M (Option ℕ)
step_line_e opcode = if bit_and opcode 0x00C0 == 0x00C0 then run (exec_shift opcode) 8 else (do
  c ← gets (λ c. c)
  let immediate = (if reg_field opcode == 0 then 8 else reg_field opcode)
  let sh_count = (if test_bit 5 opcode then low_bits (c.d_regs (reg_field opcode)) 6 else immediate)
  run (exec_shift opcode) ((if size_field opcode == 2 then 8 else 6) + 2 * sh_count))
