-- ===== src/Arith/Timing.antt =====
-- The bounds of the data-dependent instruction times (src/m68k/ops_arith.c: `m68k_exec_mul`,
-- `m68k_exec_div`).
use rocket.Base.{
  ℕ, zero, suc, ◌+◌, ◌*◌, ◌/◌, ◌%◌, ◌≤◌, ◌≡◌, refl, ◌⊎◌, Bool, false, if◌then◌else◌, arith,
  test_bit, shl, shr, u16, u32, bit_xor, ℤ,
}
use rocket.Arith.Multiply.{
  count_ones, multiply_cycles, divu_round, divu_walk, divu_cycles, divs_walk, divs_cycles,
}

-- The number of one bits among the lowest `rounds`.
abbrev pub ones : ℕ → ℕ → ℕ
ones zero d = 0
ones (suc rounds) d = d % 2 + ones rounds (d / 2)

ones-le : (rounds d : ℕ) → ones rounds d ≤ rounds
ones-le zero d = omega arith
ones-le (suc rounds) d = omega (arith, ones-le rounds (d / 2))

ones-zero : (rounds : ℕ) → ones rounds 0 ≡ 0
ones-zero zero = refl
ones-zero (suc rounds) = omega (arith, ones-zero rounds)

-- The counting loop counts the one bits of the width that it is given.
count_ones_lem : (rounds d m : ℕ) → count_ones rounds d m ≡ m + ones rounds d
unfolding count_ones test_bit
count_ones_lem zero d m = omega arith
count_ones_lem (suc rounds) d m =
    ground
      (arith, count_ones_lem rounds (shr d 1) (if test_bit 0 d then m + 1 else m), ones-zero rounds)

divu_round-count :
    (hdivisor d m : ℕ) → (m ≤ (divu_round hdivisor d m).1) × ((divu_round hdivisor d m).1 ≤ m + 2)
unfolding divu_round
divu_round-count hdivisor d m = ground arith

divu_walk-bounds :
    (rounds hdivisor d m : ℕ)
    → (m ≤ divu_walk rounds hdivisor d m) × (divu_walk rounds hdivisor d m ≤ m + 2 * rounds)
unfolding divu_walk
divu_walk-bounds zero hdivisor d m = (omega arith, omega arith)
divu_walk-bounds (suc rounds) hdivisor d m =
    let s = divu_round hdivisor d m in
    let c = divu_round-count hdivisor d m in
    let r = divu_walk-bounds rounds hdivisor s.0 s.1 in (omega arith, omega arith)

divs_walk-bounds :
    (rounds aquot m : ℕ) → (m ≤ divs_walk rounds aquot m) × (divs_walk rounds aquot m ≤ m + rounds)
unfolding divs_walk
divs_walk-bounds zero aquot m = (omega arith, omega arith)
divs_walk-bounds (suc rounds) aquot m =
    let r = divs_walk-bounds rounds (u32 (shl aquot 1)) (if test_bit 15 aquot then m else m + 1) in
    (ground arith, ground arith)

-- MULU takes 38 cycles and two more for each one bit of the source word; a multiplication of
-- either kind takes from 38 to 70 cycles.
multiply_cycles-bounds :
    (is_signed : Bool) (op2 : ℕ)
    → (multiply_cycles false op2 ≡ 38 + 2 * ones 16 (u16 op2))
      × (38 ≤ multiply_cycles is_signed op2)
      × (multiply_cycles is_signed op2 ≤ 70)
unfolding multiply_cycles
multiply_cycles-bounds is_signed op2 =
    let d = (if is_signed then u16 (bit_xor (shl op2 1) op2) else u16 op2) in
    let l = ones-le 16 d in
    (
      omega (arith, count_ones_lem 16 (u16 op2) 17),
      omega (arith, count_ones_lem 16 d 17),
      omega (arith, count_ones_lem 16 d 17),
    )

-- An unsigned division takes 10 cycles when the quotient cannot fit 16 bits, and from 76 to 136
-- else; a signed division takes 16 or 18 when the magnitudes show that it cannot fit, and from 120
-- to 156 else.
div_cycles-bounds :
    (dividend divisor : ℕ) (sd sv : ℤ)
    → ((divu_cycles dividend divisor ≡ 10)
        ⊎ ((76 ≤ divu_cycles dividend divisor) × (divu_cycles dividend divisor ≤ 136)))
      × ((16 ≤ divs_cycles sd sv) × (divs_cycles sd sv ≤ 18)
          ⊎ (120 ≤ divs_cycles sd sv) × (divs_cycles sd sv ≤ 156))
unfolding divu_cycles divs_cycles
div_cycles-bounds dividend divisor sd sv =
    let w = divu_walk-bounds 15 (shl divisor 16) dividend 38 in
    (ground arith, grind (arith, divs_walk-bounds))
