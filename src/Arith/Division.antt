-- ===== src/Arith/Division.antt =====
-- Division and multiplication of a data register by a data register (src/m68k/ops_arith.c:
-- `m68k_exec_div`, `m68k_exec_mul`).
use native.Mathlib.Nat.{div-add-mod', mod-lt}
use rocket.Base.{
  ℕ, ◌+◌, ◌*◌, ◌/◌, ◌%◌, ◌^◌, ◌<◌, ◌≤◌, ◌≡◌, ◌≢◌, ◌∙◌, ap, sym, refl, true, false, ◌==◌, ltb, ◌⊎◌,
  if◌then◌else◌, arith, update, update-same, test_bit, test_bit-bit_or, test_bit-bit_and, bit_and,
  bit_or, shl, low_bits, bit_or_fields, pos, ◌-ℤ◌, Bool-cases, inl, inr,
}
use rocket.Cpu.{M68kCpu, size_word, Host, ok, sr_c, sr_v, sr_z, sr_n}
use rocket.Ea.Register.{m68k_calc_ea-register}
use rocket.Flags.Bits.{flag_bits}
use rocket.Decode.{reg_field, mode_field, ea_reg_field, opmode_field}
use rocket.Arith.Multiply.{exec_div, divu_cycles, flags_div, flags_div_overflow}

-- The context after DIVU Dm,Dn.
abbrev divided : ℕ → ℕ → ℕ → M68kCpu → M68kCpu
divided dividend divisor n c =
    let q = dividend / divisor in
    if ltb 0xFFFF q then record c { sr = flags_div_overflow c.sr } else record c {
      d_regs = update c.d_regs n (bit_or (shl (dividend % divisor) 16) (low_bits q 16));
      sr = flags_div q c.sr;
    }

exec_div-register :
    (opcode : ℕ) (h : Host) (c : M68kCpu)
    → opmode_field opcode ≡ 3
    → mode_field opcode ≡ 0
    → let n = reg_field opcode in
      let m = ea_reg_field opcode in
      let dividend = c.d_regs n in
      let divisor = low_bits (c.d_regs m) 16 in
      divisor ≢ 0
      → exec_div opcode h c ≡ (
        ok tt,
        divided dividend divisor n (record c {
          cycles_remaining = c.cycles_remaining -ℤ pos (divu_cycles dividend divisor);
        }),
      )
unfolding exec_div
exec_div-register opcode h c word m0 nonzero =
    let n = reg_field opcode in
    let divisor = low_bits (c.d_regs (ea_reg_field opcode)) 16 in
    let e = m68k_calc_ea-register (ea_reg_field opcode) size_word h c in
    let proper : (divisor == 0) ≡ false = ground arith in
    elim (Bool-cases (ltb 0xFFFF (c.d_regs n / divisor))) [
      | inl big ↦ rw (word, m0, e, proper, big) refl
      | inr fits ↦ rw (word, m0, e, proper, fits) refl
    ]

flags_div-bits :
    (q sr : ℕ)
    → (test_bit sr_v (flags_div_overflow sr) ≡ true)
      × (test_bit sr_v (flags_div q sr) ≡ false)
      × (test_bit sr_c (flags_div_overflow sr) ≡ false)
      × (test_bit sr_c (flags_div q sr) ≡ false)
      × (test_bit sr_z (flags_div q sr) ≡ (q == 0))
      × (test_bit sr_n (flags_div q sr) ≡ test_bit 15 q)
unfolding flags_div flags_div_overflow test_bit
flags_div-bits q sr = (
  grind (arith, test_bit-bit_or sr_v (bit_and sr 0xFFF0) 0x000A),
  simp flag_bits (ground arith),
  grind (arith, test_bit-bit_or sr_c (bit_and sr 0xFFF0) 0x000A, test_bit-bit_and sr_c sr 0xFFF0),
  simp flag_bits (ground arith),
  simp flag_bits (ground arith),
  simp flag_bits (ground arith),
)

-- The register after a division that fits: the remainder above the quotient.
packed :
    (dividend divisor : ℕ)
    → divisor ≢ 0
    → divisor < 2 ^ 16
    → dividend / divisor ≤ 0xFFFF
    → let v = bit_or (shl (dividend % divisor) 16) (low_bits (dividend / divisor) 16) in
      (dividend ≡ v % 2 ^ 16 * divisor + v / 2 ^ 16)
      × (v / 2 ^ 16 < divisor)
      × (v % 2 ^ 16 ≡ dividend / divisor)
packed dividend divisor nonzero small fits =
    let q = dividend / divisor in
    let r = dividend % divisor in
    let v = bit_or (shl r 16) (low_bits q 16) in
    let joined : v ≡ r * 2 ^ 16 + low_bits q 16 =
      bit_or_fields 16 r (low_bits q 16) (omega arith) in
    let low : v % 2 ^ 16 ≡ q = omega arith in
    let high : v / 2 ^ 16 ≡ r = omega arith in
    let positive : 0 < divisor = ground arith in
    (rw (low, high) (sym (div-add-mod' dividend divisor)), rw high (mod-lt dividend positive), low)

-- DIVU Dm,Dn with a divisor that is not zero: where the quotient fits 16 bits, the low word of Dn
-- is the quotient and the high word the remainder of its old value by the low word of Dm, V is
-- clear, Z tells a zero quotient and N its top bit; where it does not fit, Dn keeps its value and V
-- is set. Both clear C and return, under any host.
pub exec_div-divu :
    (opcode : ℕ) (h : Host) (c : M68kCpu)
    → opmode_field opcode ≡ 3
    → mode_field opcode ≡ 0
    → low_bits (c.d_regs (ea_reg_field opcode)) 16 ≢ 0
    → let (r, c') = exec_div opcode h c in
      let n = reg_field opcode in
      let dividend = c.d_regs n in
      let divisor = low_bits (c.d_regs (ea_reg_field opcode)) 16 in
      let quotient = c'.d_regs n % 2 ^ 16 in
      let remainder = c'.d_regs n / 2 ^ 16 in
      (r ≡ ok tt)
      × (test_bit sr_c c'.sr ≡ false)
      × (((dividend ≡ quotient * divisor + remainder)
            × (remainder < divisor)
            × (test_bit sr_v c'.sr ≡ false)
            × (test_bit sr_z c'.sr ≡ (quotient == 0))
            × (test_bit sr_n c'.sr ≡ test_bit 15 quotient))
          ⊎ ((0xFFFF < dividend / divisor)
              × (c'.d_regs n ≡ dividend)
              × (test_bit sr_v c'.sr ≡ true)))
exec_div-divu opcode h c word m0 nonzero =
    let n = reg_field opcode in
    let dividend = c.d_regs n in
    let divisor = low_bits (c.d_regs (ea_reg_field opcode)) 16 in
    let q = dividend / divisor in
    let b = flags_div-bits q c.sr in
    rw (exec_div-register opcode h c word m0 nonzero) (elim (Bool-cases (ltb 0xFFFF q)) [
      | inl big ↦ rw big (refl, b.2, inr (ground arith, refl, b.0))
      | inr fits ↦
          let p = packed dividend divisor nonzero (omega arith) (ground arith) in
          let v = bit_or (shl (dividend % divisor) 16) (low_bits q 16) in
          rw (fits, update-same c.d_regs n v)
            (
              refl,
              b.3,
              inl (
                p.0,
                p.1,
                b.1,
                b.4 ∙ ap (λ (t : ℕ). t == 0) (sym p.2),
                b.5 ∙ ap (test_bit 15) (sym p.2),
              ),
            )
    ])
