-- ===== src/Arith/Chain.antt =====
-- The flags of chained arithmetic on pairs of long words (src/m68k/ops_arith.c: `m68k_exec_addx`,
-- `m68k_exec_subx`).
use rocket.Base.{
  ℕ, ◌+◌, ◌*◌, ◌%◌, ◌^◌, ◌<◌, ◌≡◌, ap, ◌∙◌, Bool, true, false, ◌&&◌, ◌==◌, ltb, leb, if◌then◌else◌,
  arith, test_bit, test_bit-bit_or, test_bit-bit_and, add32, sub32,
}
use rocket.Cpu.{M68kSize, size_long, sr_z, sr_x}
use rocket.Flags.{is_zero, flags_add, flags_sub}
use rocket.Flags.Carry.{flags_add-means, flags_sub-means, is_zero_lem}
use rocket.Decode.{extend_bit}
use rocket.Arith.Extended.{sticky_zero, flags_addx, flags_subx}

-- Z after a chained operation: it survives only on a zero result. X is the one of the operation.
sticky_zero-bits :
    (old_z : Bool) (result : ℕ) (size : M68kSize) (sr : ℕ)
    → (test_bit sr_z (sticky_zero old_z result size sr) ≡ (is_zero size result && old_z))
      × (test_bit sr_x (sticky_zero old_z result size sr) ≡ test_bit sr_x sr)
unfolding sticky_zero test_bit
sticky_zero-bits true result size sr = (
  grind (arith, test_bit-bit_or sr_z sr 4, test_bit-bit_and sr_z sr 0xFFFB),
  grind (arith, test_bit-bit_or sr_x sr 4, test_bit-bit_and sr_x sr 0xFFFB),
)
sticky_zero-bits false result size sr =
    (grind (arith, test_bit-bit_and sr_z sr 0xFFFB), grind (arith, test_bit-bit_and sr_x sr 0xFFFB))

-- The word that two long words make.
abbrev pub wide : ℕ → ℕ → ℕ
wide hi lo = hi * 2 ^ 32 + lo

abbrev bit : Bool → ℕ
bit b = if b then 1 else 0

wide_sum :
    (hi1 lo1 hi2 lo2 : ℕ) (x1 x2 z1 z2 : Bool)
    → hi1 < 2 ^ 32
    → lo1 < 2 ^ 32
    → hi2 < 2 ^ 32
    → lo2 < 2 ^ 32
    → let lo = add32 lo1 lo2 in
      let hi = add32 (add32 hi1 hi2) (bit x1) in
      x1 ≡ leb (2 ^ 32) (lo1 % 2 ^ 32 + lo2 % 2 ^ 32 + 0)
      → x2 ≡ leb (2 ^ 32) (hi1 % 2 ^ 32 + hi2 % 2 ^ 32 + bit x1)
      → z1 ≡ (lo % 2 ^ 32 == 0)
      → z2 ≡ ((hi % 2 ^ 32 == 0) && z1)
      → (bit x2 * 2 ^ 64 + wide hi lo ≡ wide hi1 lo1 + wide hi2 lo2) × (z2 ≡ (wide hi lo == 0))
wide_sum hi1 lo1 hi2 lo2 x1 x2 z1 z2 h1 l1 h2 l2 e1 e2 e3 e4 = ground arith

wide_difference :
    (hi1 lo1 hi2 lo2 : ℕ) (x1 x2 z1 z2 : Bool)
    → hi1 < 2 ^ 32
    → lo1 < 2 ^ 32
    → hi2 < 2 ^ 32
    → lo2 < 2 ^ 32
    → let lo = sub32 lo1 lo2 in
      let hi = sub32 (sub32 hi1 hi2) (bit x1) in
      x1 ≡ ltb (lo1 % 2 ^ 32) (lo2 % 2 ^ 32 + 0)
      → x2 ≡ ltb (hi1 % 2 ^ 32) (hi2 % 2 ^ 32 + bit x1)
      → z1 ≡ (lo % 2 ^ 32 == 0)
      → z2 ≡ ((hi % 2 ^ 32 == 0) && z1)
      → (wide hi lo + wide hi2 lo2 ≡ wide hi1 lo1 + bit x2 * 2 ^ 64) × (z2 ≡ (wide hi lo == 0))
wide_difference hi1 lo1 hi2 lo2 x1 x2 z1 z2 h1 l1 h2 l2 e1 e2 e3 e4 = ground arith

module _ (hi1 lo1 hi2 lo2 sr : ℕ) (h1 : hi1 < 2 ^ 32) (l1 : lo1 < 2 ^ 32) (h2 : hi2 < 2 ^ 32)
    (l2 : lo2 < 2 ^ 32) where
  -- The X and the Z of a chained sum of two pairs of long words.
  pub flags_addx-wide :
      let lo = add32 lo1 lo2 in
      let sr1 = flags_add lo2 lo1 lo size_long sr in
      let hi = add32 (add32 hi1 hi2) (extend_bit sr1) in
      let sr2 = flags_addx hi2 hi1 hi size_long sr1 in
      (extend_bit sr2 * 2 ^ 64 + wide hi lo ≡ wide hi1 lo1 + wide hi2 lo2)
      × (test_bit sr_z sr2 ≡ (wide hi lo == 0))
  unfolding flags_addx
  flags_addx-wide =
      let lo = add32 lo1 lo2 in
      let sr1 = flags_add lo2 lo1 lo size_long sr in
      let hi = add32 (add32 hi1 hi2) (extend_bit sr1) in
      let plain : add32 lo 0 ≡ lo = omega arith in
      let m1 = rw plain at (flags_add-means lo2 lo1 0 size_long sr (omega arith) l2 l1) in
      let m2 = flags_add-means hi2 hi1 (extend_bit sr1) size_long sr1 (ground arith) h2 h1 in
      let s =
        sticky_zero-bits (test_bit sr_z sr1) hi size_long (flags_add hi2 hi1 hi size_long sr1) in
      wide_sum hi1 lo1 hi2 lo2 (test_bit sr_x sr1) _ (test_bit sr_z sr1) _ h1 l1 h2 l2 m1.1
        (s.1 ∙ m2.1) m1.3
        (s.0 ∙ ap (λ (b : Bool). b && test_bit sr_z sr1) (is_zero_lem size_long hi))

  -- The X and the Z of a chained difference of two pairs of long words.
  pub flags_subx-wide :
      let lo = sub32 lo1 lo2 in
      let sr1 = flags_sub lo2 lo1 lo size_long sr in
      let hi = sub32 (sub32 hi1 hi2) (extend_bit sr1) in
      let sr2 = flags_subx hi2 hi1 hi size_long sr1 in
      (wide hi lo + wide hi2 lo2 ≡ wide hi1 lo1 + extend_bit sr2 * 2 ^ 64)
      × (test_bit sr_z sr2 ≡ (wide hi lo == 0))
  unfolding flags_subx
  flags_subx-wide =
      let lo = sub32 lo1 lo2 in
      let sr1 = flags_sub lo2 lo1 lo size_long sr in
      let hi = sub32 (sub32 hi1 hi2) (extend_bit sr1) in
      let plain : sub32 lo 0 ≡ lo = omega arith in
      let m1 = rw plain at (flags_sub-means lo2 lo1 0 size_long sr (omega arith) l2 l1) in
      let m2 = flags_sub-means hi2 hi1 (extend_bit sr1) size_long sr1 (ground arith) h2 h1 in
      let s =
        sticky_zero-bits (test_bit sr_z sr1) hi size_long (flags_sub hi2 hi1 hi size_long sr1) in
      wide_difference hi1 lo1 hi2 lo2 (test_bit sr_x sr1) _ (test_bit sr_z sr1) _ h1 l1 h2 l2 m1.1
        (s.1 ∙ m2.1) m1.3
        (s.0 ∙ ap (λ (b : Bool). b && test_bit sr_z sr1) (is_zero_lem size_long hi))
