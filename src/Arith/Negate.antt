-- ===== src/Arith/Negate.antt =====
-- The flags of NEGX (src/m68k/ops_arith.c: `m68k_exec_negx`).
use rocket.Base.{
  ℕ, ◌+◌, ◌^◌, ◌<◌, ◌≤◌, ◌≡◌, ◌∙◌, sym, refl, Bool, false, ◌==◌, ltb, leb, ap, ℤ, ◌&&◌, ◌||◌, arith,
  test_bit, sub32, pos, ◌-ℤ◌,
}
use rocket.Cpu.{M68kSize, size_byte, size_word, size_long, sr_c, sr_v, sr_z, sr_n, sr_x}
use rocket.Flags.{msb, is_zero, flags_sub}
use rocket.Flags.Bits.{flag_bits, flags_sub-bits}
use rocket.Flags.Carry.{unsigned, signed, half_range, overflows, flags_sub-means, is_zero_lem}
use rocket.Arith.Extended.{flags_negx}

msb-zero : (size : M68kSize) → msb size 0 ≡ false
unfolding msb test_bit
msb-zero size_byte = refl
msb-zero size_word = refl
msb-zero size_long = refl

unsigned-zero : (size : M68kSize) → unsigned size 0 ≡ 0
unsigned-zero size_byte = refl
unsigned-zero size_word = refl
unsigned-zero size_long = refl

signed-zero : (size : M68kSize) → signed size 0 ≡ pos 0
signed-zero size_byte = refl
signed-zero size_word = refl
signed-zero size_long = refl

flags_negx-bits :
    (src result : ℕ) (size : M68kSize) (sr : ℕ)
    → let sm = msb size src in
      let rm = msb size result in
      let sr' = flags_negx src result size sr in
      (test_bit sr_n sr' ≡ rm)
      × (test_bit sr_z sr' ≡ (is_zero size result && test_bit sr_z sr))
      × (test_bit sr_v sr' ≡ (sm && rm))
      × (test_bit sr_c sr' ≡ (sm || rm))
      × (test_bit sr_x sr' ≡ (sm || rm))
unfolding flags_negx test_bit
flags_negx-bits src result size sr = (
  simp flag_bits (ground arith),
  simp flag_bits (ground arith),
  simp flag_bits (ground arith),
  simp flag_bits (ground arith),
  simp flag_bits (ground arith),
)

-- For an operand of 32 bits and an extend bit: NEGX sets C and X to the borrow of the subtraction
-- of both from zero, V when the signed difference does not fit the operand size, and N to the sign
-- of the result, and it keeps Z only on a zero result.
flags_negx-means :
    (src x : ℕ) (size : M68kSize) (sr : ℕ)
    → x ≤ 1
    → src < 2 ^ 32
    → let r = sub32 (sub32 0 src) x in
      let sr' = flags_negx src r size sr in
      (test_bit sr_c sr' ≡ ltb 0 (unsigned size src + x))
      × (test_bit sr_x sr' ≡ ltb 0 (unsigned size src + x))
      × (test_bit sr_v sr' ≡ overflows size (pos 0 -ℤ signed size src -ℤ pos x))
      × (test_bit sr_z sr' ≡ ((unsigned size r == 0) && test_bit sr_z sr))
      × (test_bit sr_n sr' ≡ leb (half_range size) (unsigned size r))
flags_negx-means src x size sr x1 fits =
    let r = sub32 (sub32 0 src) x in
    let b = flags_sub-bits src 0 r size sr in
    let n = flags_negx-bits src r size sr in
    let m = flags_sub-means src 0 x size sr x1 fits (omega arith) in
    let zero_dest = msb-zero size in
    let zero_unsigned : unsigned size 0 ≡ 0 = unsigned-zero size in
    let zero_signed : signed size 0 ≡ pos 0 = signed-zero size in
    let c_same : test_bit sr_c (flags_negx src r size sr)
        ≡ test_bit sr_c (flags_sub src 0 r size sr) =
      ground arith in
    let v_same : test_bit sr_v (flags_negx src r size sr)
        ≡ test_bit sr_v (flags_sub src 0 r size sr) =
      ground arith in
    (
      c_same ∙ m.0 ∙ ap (λ (t : ℕ). ltb t (unsigned size src + x)) zero_unsigned,
      n.4 ∙ sym n.3 ∙ c_same ∙ m.0 ∙ ap (λ (t : ℕ). ltb t (unsigned size src + x)) zero_unsigned,
      v_same ∙ m.2 ∙ ap (λ (t : ℤ). overflows size (t -ℤ signed size src -ℤ pos x)) zero_signed,
      n.1 ∙ ap (λ (t : Bool). t && test_bit sr_z sr) (is_zero_lem size r),
      n.0 ∙ sym b.0 ∙ m.4,
    )
