-- ===== src/Arith/Tests.antt =====
-- Concrete operands for the theorems on the arithmetic handlers.
use rocket.Base.{
  ℕ, ◌+◌, ◌*◌, ◌/◌, ◌%◌, ◌^◌, ◌<◌, ◌≡◌, ◌≢◌, ◌⊎◌, refl, arith, true, false, ◌==◌, if◌then◌else◌,
  test_bit,
}
use rocket.Cpu.{M68kCpu, ◌>>◌, no_host, zero_cpu, ok, sr_c, sr_v, sr_z, sr_n, sr_x}
use rocket.Decode.{extend_bit}
use rocket.Arith.Add.{exec_add, exec_sub}
use rocket.Arith.Bcd.{bcd_add, bcd_sub, bcd_negate}
use rocket.Arith.Extended.{exec_addx, exec_subx}
use rocket.Arith.Multiply.{exec_div}
use rocket.Arith.Chain.{wide}
use rocket.Arith.Wide.{exec_add-exec_addx, exec_sub-exec_subx}
use rocket.Arith.Decimal.{bcd_add-decimal, bcd_sub-decimal}
use rocket.Arith.Division.{exec_div-divu}
use rocket.Arith.Register.{exec_add-register, exec_sub-register}

-- D0 and D1 hold two values, D2 zero.
abbrev registers : ℕ → ℕ → M68kCpu
registers d0 d1 = record zero_cpu {
  d_regs = λ i. (if i == 0 then d0 else if i == 1 then d1 else 0);
}

-- D0 and D1 hold one long pair, D2 and D3 another.
abbrev pairs : ℕ → ℕ → ℕ → ℕ → M68kCpu
pairs d0 d1 d2 d3 = record zero_cpu {
  d_regs = λ i.
      (if i == 0
        then d0
        else if i == 1
        then d1
        else if i == 2
        then d2
        else if i == 3
        then d3
        else 0);
}

-- ADD.L D3,D1 and ADDX.L D2,D0: 0x1_FFFFFFFF + 0x0_00000001.
exec_add-exec_addx_example :
    let (r, c') = (exec_add 0xD283 >> exec_addx 0xD182) no_host (pairs 1 0xFFFFFFFF 0 1) in
    let total = wide (c'.d_regs 0) (c'.d_regs 1) in
    (r ≡ ok tt)
    × (extend_bit c'.sr * 2 ^ 64 + total ≡ 0x200000000)
    × (test_bit sr_z c'.sr ≡ (total == 0))
    × ((i : ℕ) → i ≢ 1 → i ≢ 0 → c'.d_regs i ≡ (pairs 1 0xFFFFFFFF 0 1).d_regs i)
    × (c'.a_regs ≡ λ i. 0)
    × (c'.memory ≡ λ a. 0)
    × (c'.pc ≡ 0)
unfolding test_bit
exec_add-exec_addx_example =
    exec_add-exec_addx 0xD283 0xD182 no_host (pairs 1 0xFFFFFFFF 0 1) refl refl refl refl
      (ground arith) (ground arith) (λ i. ground arith)

-- SUB.L D3,D1 and SUBX.L D2,D0: 0x2_00000000 - 0x0_00000001.
exec_sub-exec_subx_example :
    let (r, c') = (exec_sub 0x9283 >> exec_subx 0x9182) no_host (pairs 2 0 0 1) in
    let total = wide (c'.d_regs 0) (c'.d_regs 1) in
    (r ≡ ok tt)
    × (total + 1 ≡ 0x200000000 + extend_bit c'.sr * 2 ^ 64)
    × (test_bit sr_z c'.sr ≡ (total == 0))
    × ((i : ℕ) → i ≢ 1 → i ≢ 0 → c'.d_regs i ≡ (pairs 2 0 0 1).d_regs i)
    × (c'.a_regs ≡ λ i. 0)
    × (c'.memory ≡ λ a. 0)
    × (c'.pc ≡ 0)
unfolding test_bit
exec_sub-exec_subx_example =
    exec_sub-exec_subx 0x9283 0x9182 no_host (pairs 2 0 0 1) refl refl refl refl (ground arith)
      (ground arith) (λ i. ground arith)

-- DIVU D1,D0 of 100000 by 7.
exec_div-divu_example :
    let c' = (exec_div 0x80C1 no_host (registers 100000 7)).1 in
    let quotient = c'.d_regs 0 % 2 ^ 16 in
    let remainder = c'.d_regs 0 / 2 ^ 16 in
    ((exec_div 0x80C1 no_host (registers 100000 7)).0 ≡ ok tt)
    × (test_bit sr_c c'.sr ≡ false)
    × (((100000 ≡ quotient * 7 + remainder)
          × (remainder < 7)
          × (test_bit sr_v c'.sr ≡ false)
          × (test_bit sr_z c'.sr ≡ (quotient == 0))
          × (test_bit sr_n c'.sr ≡ test_bit 15 quotient))
        ⊎ ((0xFFFF < 14285) × (c'.d_regs 0 ≡ 100000) × (test_bit sr_v c'.sr ≡ true)))
exec_div-divu_example = exec_div-divu 0x80C1 no_host (registers 100000 7) refl refl (ground arith)

-- ADD.B D1,D0.
exec_add-register_example :
    let c' = (exec_add 0xD001 no_host (registers 0x12345690 0x80)).1 in
    ((exec_add 0xD001 no_host (registers 0x12345690 0x80)).0 ≡ ok tt)
    × (c'.d_regs 0 / 2 ^ 8 ≡ 0x123456)
    × (c'.d_regs 0 % 2 ^ 8 ≡ 0x10)
    × ((i : ℕ) → i ≢ 0 → c'.d_regs i ≡ (registers 0x12345690 0x80).d_regs i)
    × (c'.a_regs ≡ λ i. 0)
    × (c'.memory ≡ λ a. 0)
    × (c'.pc ≡ 0)
    × (test_bit sr_c c'.sr ≡ true)
    × (test_bit sr_x c'.sr ≡ true)
exec_add-register_example =
    exec_add-register 0xD001 no_host (registers 0x12345690 0x80) (omega arith) refl (omega arith)
      (omega arith)

-- SUB.W D1,D0.
exec_sub-register_example :
    let c' = (exec_sub 0x9041 no_host (registers 0x12340001 2)).1 in
    ((exec_sub 0x9041 no_host (registers 0x12340001 2)).0 ≡ ok tt)
    × (c'.d_regs 0 / 2 ^ 16 ≡ 0x1234)
    × ((c'.d_regs 0 + 2) % 2 ^ 16 ≡ 1)
    × ((i : ℕ) → i ≢ 0 → c'.d_regs i ≡ (registers 0x12340001 2).d_regs i)
    × (c'.a_regs ≡ λ i. 0)
    × (c'.memory ≡ λ a. 0)
    × (c'.pc ≡ 0)
    × (test_bit sr_c c'.sr ≡ true)
    × (test_bit sr_x c'.sr ≡ true)
exec_sub-register_example =
    exec_sub-register 0x9041 no_host (registers 0x12340001 2) (omega arith) refl (omega arith)
      (omega arith)

-- 58 + 46 with an extend bit.
bcd_add-decimal_example :
    ((bcd_add 0x58 0x46 1).result ≡ 0x05) × ((bcd_add 0x58 0x46 1).c_flag ≡ true)
bcd_add-decimal_example = bcd_add-decimal 58 46 1 (omega arith) (omega arith) (omega arith)

-- 46 - 58 with an extend bit, and the negation of 58.
bcd_sub-decimal_example :
    ((bcd_sub 0x58 0x46 1).result ≡ 0x87)
    × ((bcd_sub 0x58 0x46 1).c_flag ≡ true)
    × ((bcd_negate 0x58 1).result ≡ 0x41)
    × ((bcd_negate 0x58 1).c_flag ≡ true)
bcd_sub-decimal_example = bcd_sub-decimal 58 46 1 (omega arith) (omega arith) (omega arith)
