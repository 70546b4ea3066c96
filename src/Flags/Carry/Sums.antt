-- ===== src/Flags/Carry/Sums.antt =====
-- The flag formulas over any half range: each operand by its top bit and its value.
use rocket.Base.{
  ℕ, ◌+◌, ◌*◌, ◌≤◌, ◌<◌, ◌≡◌, ◌⊎◌, pos, ◌+ℤ◌, ◌-ℤ◌, not, ◌&&◌, ◌||◌, leb, ltb, arith, signed_at,
  not_signed_at, ◌==◌, ltb_ℤ,
}

module _ (h d s x r : ℕ) (dw : d < 2 * h) (sw : s < 2 * h) (rw' : r < 2 * h) (x1 : x ≤ 1) where
  pub add_carry :
      ((r ≡ d + s + x) ⊎ (r + 2 * h ≡ d + s + x))
      → (leb h s && leb h d || not (leb h r) && leb h d || leb h s && not (leb h r))
        ≡ leb (2 * h) (d + s + x)
  add_carry wraps = ground arith

  pub add_overflow :
      ((r ≡ d + s + x) ⊎ (r + 2 * h ≡ d + s + x))
      → (leb h s && leb h d && not (leb h r) || not (leb h s) && not (leb h d) && leb h r)
        ≡ not_signed_at h (signed_at h d +ℤ signed_at h s +ℤ pos x)
  unfolding ◌+ℤ◌
  add_overflow wraps = ground arith

  pub sub_borrow :
      ((r + (s + x) ≡ d) ⊎ (r + (s + x) ≡ d + 2 * h))
      → (leb h s && not (leb h d) || leb h r && not (leb h d) || leb h s && leb h r) ≡ ltb d (s + x)
  sub_borrow wraps = ground arith

  pub sub_overflow :
      ((r + (s + x) ≡ d) ⊎ (r + (s + x) ≡ d + 2 * h))
      → (not (leb h s) && leb h d && not (leb h r) || leb h s && not (leb h d) && leb h r)
        ≡ not_signed_at h (signed_at h d -ℤ signed_at h s -ℤ pos x)
  unfolding ◌-ℤ◌
  sub_overflow wraps = ground arith

-- The order of two operands, read from the flags of their difference.
module _ (h d s r : ℕ) (dw : d < 2 * h) (sw : s < 2 * h) (rw' : r < 2 * h)
    (wraps : (r + s ≡ d) ⊎ (r + s ≡ d + 2 * h)) where
  pub difference_zero : (r == 0) ≡ (d == s)
  difference_zero = ground arith

  pub difference_sign :
      let n = leb h r in
      let v = not_signed_at h (signed_at h d -ℤ signed_at h s) in
      (n && not v || not n && v) ≡ ltb_ℤ (signed_at h d) (signed_at h s)
  unfolding ◌-ℤ◌
  difference_sign = ground arith

pub signed_order :
    (h d s : ℕ)
    → d < 2 * h
    → s < 2 * h
    → ltb_ℤ (signed_at h s) (signed_at h d)
      ≡ (not (ltb_ℤ (signed_at h d) (signed_at h s)) && not (d == s))
signed_order h d s dw sw = ground arith
