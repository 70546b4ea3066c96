-- ===== src/Flags/Bits.antt =====
-- Each flag after each update, by the operands' bits (src/m68k/m68k.c: `update_flags_add` and its
-- kin).
use rocket.Base.{
  ℕ, ◌<◌, ◌/◌, ◌^◌, ◌≡◌, refl, Bool, true, false, not, ◌&&◌, ◌||◌, ◌==◌, if◌then◌else◌, arith,
  test_bit, test_bit-bit_or, test_bit-bit_and, bit_or, bit_or-div, bit_or-zero, bit_and-div,
  bit_and_mask,
}
use rocket.Cpu.{M68kSize, sr_c, sr_v, sr_z, sr_n, sr_x}
use rocket.Flags.Update.{raise_if, msb, is_zero, flags_add, flags_sub, flags_cmp, flags_logic}

pub test_bit-raise_if :
    (k : ℕ) (b : Bool) (j sr : ℕ)
    → test_bit k (raise_if b j sr) ≡ (b && test_bit k (2 ^ j) || test_bit k sr)
unfolding raise_if
test_bit-raise_if k true j sr = rw test_bit-bit_or (ground arith)
test_bit-raise_if k false j sr = refl

pub ruleset flag_bits = (test_bit-raise_if, test_bit-bit_and)

-- A flag below bit `k` does not change the bits from `k` on.
raise_if-div :
    (k : ℕ) (b : Bool) (j sr : ℕ) → 2 ^ j / 2 ^ k ≡ 0 → raise_if b j sr / 2 ^ k ≡ sr / 2 ^ k
unfolding raise_if
raise_if-div k true j sr low = rw (bit_or-div, low, bit_or-zero)
raise_if-div k false j sr low = refl

module _ (src dest result : ℕ) (size : M68kSize) (sr : ℕ) where
  pub flags_add-bits :
      let sm = msb size src in
      let dm = msb size dest in
      let rm = msb size result in
      let sr' = flags_add src dest result size sr in
      (test_bit sr_n sr' ≡ rm)
      × (test_bit sr_z sr' ≡ is_zero size result)
      × (test_bit sr_v sr' ≡ (sm && dm && not rm || not sm && not dm && rm))
      × (test_bit sr_c sr' ≡ (sm && dm || not rm && dm || sm && not rm))
      × (test_bit sr_x sr' ≡ test_bit sr_c sr')
  unfolding flags_add test_bit
  flags_add-bits = (
    simp flag_bits (ground arith),
    simp flag_bits (ground arith),
    simp flag_bits (ground arith),
    simp flag_bits (ground arith),
    simp flag_bits (ground arith),
  )

  pub flags_sub-bits :
      let sm = msb size src in
      let dm = msb size dest in
      let rm = msb size result in
      let sr' = flags_sub src dest result size sr in
      (test_bit sr_n sr' ≡ rm)
      × (test_bit sr_z sr' ≡ is_zero size result)
      × (test_bit sr_v sr' ≡ (not sm && dm && not rm || sm && not dm && rm))
      × (test_bit sr_c sr' ≡ (sm && not dm || rm && not dm || sm && rm))
      × (test_bit sr_x sr' ≡ test_bit sr_c sr')
  unfolding flags_sub test_bit
  flags_sub-bits = (
    simp flag_bits (ground arith),
    simp flag_bits (ground arith),
    simp flag_bits (ground arith),
    simp flag_bits (ground arith),
    simp flag_bits (ground arith),
  )

  pub flags_cmp-bits :
      let sm = msb size src in
      let dm = msb size dest in
      let rm = msb size result in
      let sr' = flags_cmp src dest result size sr in
      (test_bit sr_n sr' ≡ rm)
      × (test_bit sr_z sr' ≡ is_zero size result)
      × (test_bit sr_v sr' ≡ (not sm && dm && not rm || sm && not dm && rm))
      × (test_bit sr_c sr' ≡ (sm && not dm || rm && not dm || sm && rm))
      × (test_bit sr_x sr' ≡ test_bit sr_x sr)
  unfolding flags_cmp test_bit
  flags_cmp-bits = (
    simp flag_bits (ground arith),
    simp flag_bits (ground arith),
    simp flag_bits (ground arith),
    simp flag_bits (ground arith),
    simp flag_bits (ground arith),
  )

  pub flags_add-system : sr < 2 ^ 16 → flags_add src dest result size sr / 2 ^ 5 ≡ sr / 2 ^ 5
  unfolding flags_add
  flags_add-system fits =
      rw
        (
          raise_if-div 5 _ sr_x _ refl,
          raise_if-div 5 _ sr_c _ refl,
          raise_if-div 5 _ sr_v _ refl,
          raise_if-div 5 _ sr_z _ refl,
          raise_if-div 5 _ sr_n _ refl,
          bit_and-div 5 sr 0xFFE0,
        )
        (omega (arith, bit_and_mask 11 (sr / 2 ^ 5)))

  pub flags_logic-bits :
      let sr' = flags_logic result size sr in
      (test_bit sr_n sr' ≡ msb size result)
      × (test_bit sr_z sr' ≡ is_zero size result)
      × (test_bit sr_v sr' ≡ false)
      × (test_bit sr_c sr' ≡ false)
      × (test_bit sr_x sr' ≡ test_bit sr_x sr)
  unfolding flags_logic test_bit
  flags_logic-bits = (
    simp flag_bits (ground arith),
    simp flag_bits (ground arith),
    simp flag_bits (ground arith),
    simp flag_bits (ground arith),
    simp flag_bits (ground arith),
  )
