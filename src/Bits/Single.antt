-- ===== src/Bits/Single.antt =====
-- What the bit instructions do to a data register, bit by bit (src/m68k/ops_bit.c).
use rocket.Base.{
  ℕ, zero, suc, ◌-◌, ◌*◌, ◌/◌, ◌%◌, ◌^◌, ◌<◌, ◌≤◌, ◌≡◌, ◌≢◌, ◌∙◌, ap, refl, inl, inr, Bool-cases,
  Bool, true, false, not, ◌&&◌, ◌||◌, ◌==◌, if◌then◌else◌, arith, bit_and, bit_or, bit_and_high,
  bit_and_mask, div-pow-suc, low_bits, test_bit, test_bit-bit_or, test_bit-bit_and, update,
  update-same,
}
use native.Mathlib.Nat.{pow-suc, zero-div, one-le-pow, pow-le-pow_right}
use rocket.Cpu.{M68kCpu, Host, ok, sr_z}
use rocket.Decode.{reg_field, mode_field, ea_reg_field}
use rocket.Bits.Handlers.{
  get_bit_mask, bit_number, z_of_bit, update_bit, clear_bits, exec_bset, exec_bclr,
}

-- A mask of one bit, and its complement.
digit-pow : (k j : ℕ) → 2 ^ j / 2 ^ k % 2 ≡ (if k == j then 1 else 0)
digit-pow zero zero = refl
digit-pow zero (suc j) = ground (arith, pow-suc 2 j)
digit-pow (suc k) zero = ground (arith, div-pow-suc k 1, zero-div (2 ^ k))
digit-pow (suc k) (suc j) = ground (arith, div-pow-suc k (2 ^ suc j), pow-suc 2 j, digit-pow k j)

digit-complement : (k w m : ℕ) → k < w → m < 2 ^ w → (2 ^ w - 1 - m) / 2 ^ k % 2 ≡ 1 - m / 2 ^ k % 2
digit-complement k zero m lt fits = absurd (omega arith)
digit-complement zero (suc w) m lt fits = omega (arith, pow-suc 2 w)
digit-complement (suc k) (suc w) m lt fits =
    let half : (2 ^ suc w - 1 - m) / 2 ≡ 2 ^ w - 1 - m / 2 = omega (arith, pow-suc 2 w) in
    rw (div-pow-suc k (2 ^ suc w - 1 - m), half, div-pow-suc k m)
      (digit-complement k w (m / 2) (omega arith) (omega (arith, pow-suc 2 w)))

test_bit-pow : (k j : ℕ) → test_bit k (2 ^ j) ≡ (k == j)
unfolding test_bit
test_bit-pow k j = ground (arith, digit-pow k j)

pow-lt : (j : ℕ) → j < 32 → 2 ^ j < 2 ^ 32
pow-lt j lt =
    let step : 2 ^ suc j ≤ 2 ^ 32 = pow-le-pow_right (omega arith) lt in
    omega (arith, step, pow-suc 2 j, one-le-pow j 2)

test_bit-complement : (k j : ℕ) → k < 32 → j < 32 → test_bit k (2 ^ 32 - 1 - 2 ^ j) ≡ not (k == j)
unfolding test_bit
test_bit-complement k j hk hj =
    ground (arith, digit-complement k 32 (2 ^ j) hk (pow-lt j hj), digit-pow k j)

product_test : (x p m : ℕ) → x < 2 → 1 ≤ p → m ≡ x * p → (m == 0) ≡ not (x == 1)
product_test zero p m small positive e = ground arith
product_test (suc zero) p m small positive e = ground arith
product_test (suc (suc x)) p m small positive e = absurd (omega arith)

-- The test of a mask reads the bit.
mask_test : (k d : ℕ) → (bit_and d (2 ^ k) == 0) ≡ not (test_bit k d)
unfolding test_bit
mask_test k d =
    let plain : 2 ^ k ≡ 1 * 2 ^ k = omega arith in
    let cut : bit_and d (2 ^ k) ≡ d / 2 ^ k % 2 * 2 ^ k =
      ap (bit_and d) plain
      ∙ bit_and_high k 1 d
      ∙ ap (λ (t : ℕ). t * 2 ^ k) (bit_and_mask 1 (d / 2 ^ k)) in
    product_test (d / 2 ^ k % 2) (2 ^ k) (bit_and d (2 ^ k)) (omega arith)
      (omega (arith, one-le-pow k 2)) cut

set_z : (sr : ℕ) → (test_bit sr_z sr || test_bit sr_z 4) ≡ true
unfolding test_bit
set_z sr = ground arith

clear_z : (sr : ℕ) → (test_bit sr_z sr && test_bit sr_z 0xFFFB) ≡ false
unfolding test_bit
clear_z sr = ground arith

z_of_bit-z : (k d sr : ℕ) → test_bit sr_z (z_of_bit d (2 ^ k) sr) ≡ not (test_bit k d)
unfolding z_of_bit
z_of_bit-z k d sr = rw (mask_test k d) (elim (Bool-cases (test_bit k d)) [
  | inl set ↦ rw (set, test_bit-bit_and sr_z sr 0xFFFB) (clear_z sr)
  | inr unset ↦ rw (unset, test_bit-bit_or sr_z sr 4) (set_z sr)
])

module _ (opcode : ℕ) (h : Host) (c : M68kCpu) (dynamic : test_bit 8 opcode ≡ true)
    (m0 : mode_field opcode ≡ 0) where
  update_bit-register :
      (change : ℕ → ℕ → ℕ)
      → let reg = ea_reg_field opcode in
        let mask = 2 ^ low_bits (c.d_regs (reg_field opcode)) 5 in
        let operand = c.d_regs reg in
        update_bit change opcode h c ≡ (
          ok tt,
          record c {
            sr = z_of_bit operand mask c.sr;
            d_regs = update c.d_regs reg (change operand mask);
          },
        )
  unfolding update_bit bit_number get_bit_mask
  update_bit-register change = rw (dynamic, m0) refl

  -- BSET and BCLR Dn,Dm, with the bit number modulo 32: in the data register, BSET sets exactly that
  -- bit and BCLR clears exactly that bit among the 32, Z tells that the bit was clear, the other
  -- data registers, the address registers, the PC and the memory stay, and the instruction returns,
  -- under any host.
  pub exec_bset-exec_bclr :
      let reg = ea_reg_field opcode in
      let i = low_bits (c.d_regs (reg_field opcode)) 5 in
      let (r1, c1) = exec_bset opcode h c in
      let (r2, c2) = exec_bclr opcode h c in
      (r1 ≡ ok tt)
      × (r2 ≡ ok tt)
      × ((k : ℕ) → test_bit k (c1.d_regs reg) ≡ (test_bit k (c.d_regs reg) || (k == i)))
      × ((k : ℕ)
          → k < 32
          → test_bit k (c2.d_regs reg) ≡ (test_bit k (c.d_regs reg) && not (k == i)))
      × (test_bit sr_z c1.sr ≡ not (test_bit i (c.d_regs reg)))
      × (test_bit sr_z c2.sr ≡ not (test_bit i (c.d_regs reg)))
      × ((j : ℕ) → j ≢ reg → (c1.d_regs j ≡ c.d_regs j) × (c2.d_regs j ≡ c.d_regs j))
      × (c1.a_regs ≡ c.a_regs)
      × (c2.a_regs ≡ c.a_regs)
      × (c1.pc ≡ c.pc)
      × (c2.pc ≡ c.pc)
      × (c1.memory ≡ c.memory)
      × (c2.memory ≡ c.memory)
  unfolding exec_bset exec_bclr
  exec_bset-exec_bclr =
      let reg = ea_reg_field opcode in
      let i = low_bits (c.d_regs (reg_field opcode)) 5 in
      let operand = c.d_regs reg in
      rw
        (
          update_bit-register bit_or,
          update_bit-register clear_bits,
          update-same c.d_regs reg (bit_or operand (2 ^ i)),
          update-same c.d_regs reg (clear_bits operand (2 ^ i)),
        )
        (
          refl,
          refl,
          λ k.
              test_bit-bit_or k operand (2 ^ i)
              ∙ ap (λ (b : Bool). test_bit k operand || b) (test_bit-pow k i),
          λ k lt.
              test_bit-bit_and k operand (2 ^ 32 - 1 - 2 ^ i)
              ∙ ap (λ (b : Bool). test_bit k operand && b)
                  (test_bit-complement k i lt (omega arith)),
          z_of_bit-z i operand c.sr,
          z_of_bit-z i operand c.sr,
          λ j other. (ground arith, ground arith),
          refl,
          refl,
          refl,
          refl,
          refl,
          refl,
        )
