-- ===== src/Flags/Carry.antt =====
-- The meaning of the flags: the operands as numbers without and with a sign (src/m68k/m68k.c:
-- `update_flags_add`, `update_flags_sub`, `update_flags_cmp`).
pub mod Sums
use native.Mathlib.Nat.{add-zero}
use rocket.Base.{
  ℕ, ◌+◌, ◌-◌, ◌*◌, ◌%◌, ◌^◌, ◌≤◌, ◌<◌, ◌≡◌, refl, ◌⊎◌, inl, inr, ◌∙◌, ℤ, pos, ◌+ℤ◌, ◌-ℤ◌, Bool,
  not, ◌&&◌, ◌||◌, ltb, leb, ◌==◌, if◌then◌else◌, arith, test_bit, add32, sub32, signed_at,
  not_signed_at, -ℤ-zero,
}
use rocket.Cpu.{M68kSize, size_byte, size_word, size_long, size_bits, sr_c, sr_v, sr_z, sr_n, sr_x}
use rocket.Flags.Update.{msb, is_zero, flags_add, flags_sub, flags_cmp}
use rocket.Flags.Bits.{flags_add-bits, flags_sub-bits, flags_cmp-bits}
use Sums.{add_carry, add_overflow, sub_borrow, sub_overflow}

-- Half the range of the operand size.
abbrev pub half_range : M68kSize → ℕ
half_range size_byte = 2 ^ 7
half_range size_word = 2 ^ 15
half_range size_long = 2 ^ 31

-- An operand as a number without a sign, and the signed number that its bits stand for.
abbrev pub unsigned : M68kSize → ℕ → ℕ
unsigned size x = x % (2 * half_range size)

abbrev pub signed : M68kSize → ℕ → ℤ
signed size x = signed_at (half_range size) (unsigned size x)

-- The signed result does not fit the operand size.
abbrev pub overflows : M68kSize → ℤ → Bool
overflows size z = not_signed_at (half_range size) z

pub msb_lem :
    (size : M68kSize) (x : ℕ) → x < 2 ^ 32 → msb size x ≡ leb (half_range size) (unsigned size x)
unfolding msb test_bit
msb_lem size_byte x h = ground arith
msb_lem size_word x h = ground arith
msb_lem size_long x h = ground arith

pub is_zero_lem : (size : M68kSize) (x : ℕ) → is_zero size x ≡ (unsigned size x == 0)
unfolding is_zero
is_zero_lem size_byte x = refl
is_zero_lem size_word x = refl
is_zero_lem size_long x = refl

-- A sum of operands, cut to their size, has wrapped once at most.
sum_wraps :
    (size : M68kSize) (d s x : ℕ)
    → x ≤ 1
    → let r = unsigned size (add32 (add32 d s) x) in
      let t = unsigned size d + unsigned size s + x in
      (r < 2 * half_range size) × ((r ≡ t) ⊎ (r + 2 * half_range size ≡ t))
sum_wraps size_byte d s x h = omega arith
sum_wraps size_word d s x h = omega arith
sum_wraps size_long d s x h = omega arith

pub difference_wraps :
    (size : M68kSize) (d s x : ℕ)
    → x ≤ 1
    → let r = unsigned size (sub32 (sub32 d s) x) in
      let t = unsigned size s + x in
      (r < 2 * half_range size)
      × ((r + t ≡ unsigned size d) ⊎ (r + t ≡ unsigned size d + 2 * half_range size))
difference_wraps size_byte d s x h = omega arith
difference_wraps size_word d s x h = omega arith
difference_wraps size_long d s x h = omega arith

pub unsigned-lt : (size : M68kSize) (x : ℕ) → unsigned size x < 2 * half_range size
unsigned-lt size_byte x = omega arith
unsigned-lt size_word x = omega arith
unsigned-lt size_long x = omega arith

module _ (src dest x : ℕ) (size : M68kSize) (sr : ℕ) (x1 : x ≤ 1) (src_fits : src < 2 ^ 32)
    (dest_fits : dest < 2 ^ 32) where
  add_formula-carry :
      let r = add32 (add32 dest src) x in
      (msb size src && msb size dest
        || not (msb size r) && msb size dest
        || msb size src && not (msb size r))
      ≡ leb (2 * half_range size) (unsigned size dest + unsigned size src + x)
  add_formula-carry =
      let r = add32 (add32 dest src) x in
      let (r_lt, wraps) = sum_wraps size dest src x x1 in
      rw (msb_lem size src src_fits, msb_lem size dest dest_fits, msb_lem size r (omega arith))
        (add_carry (half_range size) (unsigned size dest) (unsigned size src) x (unsigned size r)
          (unsigned-lt size dest) (unsigned-lt size src) r_lt x1 wraps)

  add_formula-overflow :
      let r = add32 (add32 dest src) x in
      (msb size src && msb size dest && not (msb size r)
        || not (msb size src) && not (msb size dest) && msb size r)
      ≡ overflows size (signed size dest +ℤ signed size src +ℤ pos x)
  add_formula-overflow =
      let r = add32 (add32 dest src) x in
      let (r_lt, wraps) = sum_wraps size dest src x x1 in
      rw (msb_lem size src src_fits, msb_lem size dest dest_fits, msb_lem size r (omega arith))
        (add_overflow (half_range size) (unsigned size dest) (unsigned size src) x (unsigned size r)
          (unsigned-lt size dest) (unsigned-lt size src) r_lt x1 wraps)

  -- After an addition of 32-bit operands with an incoming extend bit of at most 1, C and X hold the carry out of the operand size,
  -- V whether the signed sum does not fit that size, Z whether the cut sum is zero, and N its sign.
  pub flags_add-means :
      let r = add32 (add32 dest src) x in
      let sr' = flags_add src dest r size sr in
      (test_bit sr_c sr' ≡ leb (2 * half_range size) (unsigned size dest + unsigned size src + x))
      × (test_bit sr_x sr' ≡ leb (2 * half_range size) (unsigned size dest + unsigned size src + x))
      × (test_bit sr_v sr' ≡ overflows size (signed size dest +ℤ signed size src +ℤ pos x))
      × (test_bit sr_z sr' ≡ (unsigned size r == 0))
      × (test_bit sr_n sr' ≡ leb (half_range size) (unsigned size r))
  flags_add-means =
      let r = add32 (add32 dest src) x in
      let b = flags_add-bits src dest r size sr in
      (
        b.3 ∙ add_formula-carry,
        b.4 ∙ b.3 ∙ add_formula-carry,
        b.2 ∙ add_formula-overflow,
        b.1 ∙ is_zero_lem size r,
        b.0 ∙ msb_lem size r (omega arith),
      )

module _ (src dest x : ℕ) (size : M68kSize) (sr : ℕ) (x1 : x ≤ 1) (src_fits : src < 2 ^ 32)
    (dest_fits : dest < 2 ^ 32) where
  sub_formula-carry :
      let r = sub32 (sub32 dest src) x in
      (msb size src && not (msb size dest)
        || msb size r && not (msb size dest)
        || msb size src && msb size r)
      ≡ ltb (unsigned size dest) (unsigned size src + x)
  sub_formula-carry =
      let r = sub32 (sub32 dest src) x in
      let (r_lt, wraps) = difference_wraps size dest src x x1 in
      rw (msb_lem size src src_fits, msb_lem size dest dest_fits, msb_lem size r (omega arith))
        (sub_borrow (half_range size) (unsigned size dest) (unsigned size src) x (unsigned size r)
          (unsigned-lt size dest) (unsigned-lt size src) r_lt x1 wraps)

  sub_formula-overflow :
      let r = sub32 (sub32 dest src) x in
      (not (msb size src) && msb size dest && not (msb size r)
        || msb size src && not (msb size dest) && msb size r)
      ≡ overflows size (signed size dest -ℤ signed size src -ℤ pos x)
  sub_formula-overflow =
      let r = sub32 (sub32 dest src) x in
      let (r_lt, wraps) = difference_wraps size dest src x x1 in
      rw (msb_lem size src src_fits, msb_lem size dest dest_fits, msb_lem size r (omega arith))
        (sub_overflow (half_range size) (unsigned size dest) (unsigned size src) x (unsigned size r)
          (unsigned-lt size dest) (unsigned-lt size src) r_lt x1 wraps)

  -- After a subtraction of 32-bit operands with an incoming extend bit of at most 1, C and X hold the borrow, V whether the signed
  -- difference does not fit the operand size, Z whether the cut difference is zero, and N its sign.
  pub flags_sub-means :
      let r = sub32 (sub32 dest src) x in
      let sr' = flags_sub src dest r size sr in
      (test_bit sr_c sr' ≡ ltb (unsigned size dest) (unsigned size src + x))
      × (test_bit sr_x sr' ≡ ltb (unsigned size dest) (unsigned size src + x))
      × (test_bit sr_v sr' ≡ overflows size (signed size dest -ℤ signed size src -ℤ pos x))
      × (test_bit sr_z sr' ≡ (unsigned size r == 0))
      × (test_bit sr_n sr' ≡ leb (half_range size) (unsigned size r))
  flags_sub-means =
      let r = sub32 (sub32 dest src) x in
      let b = flags_sub-bits src dest r size sr in
      (
        b.3 ∙ sub_formula-carry,
        b.4 ∙ b.3 ∙ sub_formula-carry,
        b.2 ∙ sub_formula-overflow,
        b.1 ∙ is_zero_lem size r,
        b.0 ∙ msb_lem size r (omega arith),
      )

module _ (src dest : ℕ) (size : M68kSize) (sr : ℕ) (src_fits : src < 2 ^ 32)
    (dest_fits : dest < 2 ^ 32) where
  minus_zero : sub32 (sub32 dest src) 0 ≡ sub32 dest src
  minus_zero = omega arith

  -- A comparison of 32-bit operands leaves X alone, and sets C to the borrow, V to whether the signed
  -- difference does not fit the operand size, Z to whether the cut difference is zero, and N to its
  -- sign.
  pub flags_cmp-means :
      let r = sub32 dest src in
      let sr' = flags_cmp src dest r size sr in
      (test_bit sr_c sr' ≡ ltb (unsigned size dest) (unsigned size src))
      × (test_bit sr_x sr' ≡ test_bit sr_x sr)
      × (test_bit sr_v sr' ≡ overflows size (signed size dest -ℤ signed size src))
      × (test_bit sr_z sr' ≡ (unsigned size r == 0))
      × (test_bit sr_n sr' ≡ leb (half_range size) (unsigned size r))
  flags_cmp-means =
      let r = sub32 dest src in
      let b = flags_cmp-bits src dest r size sr in
      (
        b.3
            ∙ rw minus_zero at
                (sub_formula-carry src dest 0 size sr (omega arith) src_fits dest_fits)
            ∙ rw add-zero,
        b.4,
        b.2
            ∙ rw minus_zero at
                (sub_formula-overflow src dest 0 size sr (omega arith) src_fits dest_fits)
            ∙ rw -ℤ-zero,
        b.1 ∙ is_zero_lem size r,
        b.0 ∙ msb_lem size r (omega arith),
      )
