-- ===== src/Arith/Bcd/Digits.antt =====
-- The decimal arithmetic of ABCD, SBCD and NBCD on bytes of two digits.
use rocket.Base.{
  ℕ, ◌+◌, Bool, not, ◌&&◌, ◌||◌, ltb, if◌then◌else◌, bit_and, low_bits, test_bit, u8, sub32,
}

-- The result byte, the carry that goes to C and X, and V.
pub record BcdResult : Type 0 where
  pub result : ℕ
  pub c_flag : Bool
  pub v_flag : Bool

unfoldable pub bcd_add : ℕ → ℕ → ℕ → BcdResult
bcd_add src dest x =
    let bin_res = low_bits src 8 + low_bits dest 8 + x in
    let low_add = low_bits src 4 + low_bits dest 4 + x in
    let res = (if ltb 9 low_add then bin_res + 6 else bin_res) in
    let c_flag = ltb 0xFF bin_res || ltb 0xFF res || ltb 0x90 (bit_and res 0xF0) in
    let result = u8 (if c_flag then res + 0x60 else res) in
    record {
      result = result;
      c_flag = c_flag;
      v_flag = not (test_bit 7 bin_res) && test_bit 7 result;
    }

-- `(int)x < 0`.
abbrev pub is_negative : ℕ → Bool
is_negative x = test_bit 31 x

unfoldable pub bcd_sub : ℕ → ℕ → ℕ → BcdResult
bcd_sub src dst x =
    let bin_res = sub32 (sub32 (low_bits dst 8) (low_bits src 8)) x in
    let low_sub = sub32 (sub32 (low_bits dst 4) (low_bits src 4)) x in
    let adjusted = (if is_negative low_sub then sub32 bin_res 6 else bin_res) in
    let c_flag_sub = is_negative bin_res in
    let res = (if c_flag_sub then sub32 adjusted 0x60 else adjusted) in
    let c_flag_sr = c_flag_sub || is_negative res in
    let result = low_bits res 8 in
    let raw_res = low_bits bin_res 8 in
    let v_flag = not (test_bit 7 result) && test_bit 7 raw_res in
    let v_cleared = v_flag && (not (test_bit 7 src) && test_bit 7 dst) && c_flag_sr in
    record { result = result; c_flag = c_flag_sr; v_flag = v_flag && not v_cleared }

unfoldable pub bcd_negate : ℕ → ℕ → BcdResult
bcd_negate dest x =
    let bin_res = sub32 (sub32 0 (low_bits dest 8)) x in
    let low_sub = sub32 (sub32 0 (low_bits dest 4)) x in
    let adjusted = (if is_negative low_sub then sub32 bin_res 6 else bin_res) in
    let c_flag_sub = is_negative bin_res in
    let res = (if c_flag_sub then sub32 adjusted 0x60 else adjusted) in
    let result = low_bits res 8 in
    let raw_res = low_bits bin_res 8 in
    record {
      result = result;
      c_flag = c_flag_sub || is_negative res;
      v_flag = not (test_bit 7 result) && test_bit 7 raw_res;
    }
