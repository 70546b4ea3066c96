-- ===== src/Arith/Decimal.antt =====
-- The decimal arithmetic on bytes that hold two decimal digits (src/m68k/ops_arith.c:
-- `m68k_exec_abcd`, `m68k_exec_sbcd`, `m68k_exec_nbcd`).
use rocket.Base.{
  ℕ, ◌+◌, ◌-◌, ◌*◌, ◌/◌, ◌%◌, ◌^◌, ◌<◌, ◌≤◌, ◌≡◌, ◌∙◌, refl, false, ltb, leb, arith, test_bit,
  Bool-cases, inl, inr, bit_and, sub32, bit_and_high, bit_and_mask,
}
use rocket.Arith.{bcd_add, bcd_sub, bcd_negate, is_negative}

-- The byte of a number below 100.
abbrev pub bcd : ℕ → ℕ
bcd n = n / 10 * 16 + n % 10

high_digit : (x : ℕ) → bit_and x 0xF0 ≡ x / 2 ^ 4 % 2 ^ 4 * 2 ^ 4
high_digit x = bit_and_high 4 0xF x ∙ omega (arith, bit_and_mask 4 (x / 2 ^ 4))

-- The sum of two numbers digit by digit.
add_digits :
    (a d b e x : ℕ)
    → a ≤ 9
    → d ≤ 9
    → b ≤ 9
    → e ≤ 9
    → x ≤ 1
    → let low = d + e + x in
      let high = a + b + low / 10 in
      ((bcd_add (a * 16 + d) (b * 16 + e) x).result ≡ high % 10 * 16 + low % 10)
      × ((bcd_add (a * 16 + d) (b * 16 + e) x).c_flag ≡ leb 10 high)
unfolding bcd_add
add_digits a d b e x ha hd hb he hx =
    let src = a * 16 + d in
    let dest = b * 16 + e in
    let s8 : src % 2 ^ 8 ≡ src = omega arith in
    let d8 : dest % 2 ^ 8 ≡ dest = omega arith in
    let s4 : src % 2 ^ 4 ≡ d = omega arith in
    let d4 : dest % 2 ^ 4 ≡ e = omega arith in
    let bin_res = src + dest + x in
    rw (s8, d8, s4, d4)
      (elim (Bool-cases (ltb 9 (d + e + x))) [
        | inl big ↦ rw (big, high_digit (bin_res + 6)) (ground arith)
        | inr fits ↦ rw (fits, high_digit bin_res) (ground arith)
      ])

-- On numbers below 100 and an extend bit: the decimal sum, with its carry.
pub bcd_add-decimal :
    (m n x : ℕ)
    → m < 100
    → n < 100
    → x ≤ 1
    → ((bcd_add (bcd m) (bcd n) x).result ≡ bcd ((m + n + x) % 100))
      × ((bcd_add (bcd m) (bcd n) x).c_flag ≡ leb 100 (m + n + x))
bcd_add-decimal m n x hm hn hx =
    let digits =
      add_digits (m / 10) (m % 10) (n / 10) (n % 10) x (omega arith) (omega arith) (omega arith)
        (omega arith) hx in
    ground (arith, digits)

borrows :
    (p q x : ℕ) → p < 2 ^ 8 → q < 2 ^ 8 → x ≤ 1 → is_negative (sub32 (sub32 p q) x) ≡ ltb p (q + x)
unfolding test_bit
borrows p q x hp hq hx = ground arith

not_negative : (y : ℕ) → y < 2 ^ 31 → is_negative y ≡ false
unfolding test_bit
not_negative y lt = ground arith

-- The difference of two numbers digit by digit.
sub_digits :
    (a d b e x : ℕ)
    → a ≤ 9
    → d ≤ 9
    → b ≤ 9
    → e ≤ 9
    → x ≤ 1
    → let low = e + 10 - d - x in
      let high = b + 10 - a - (1 - low / 10) in
      ((bcd_sub (a * 16 + d) (b * 16 + e) x).result ≡ high % 10 * 16 + low % 10)
      × ((bcd_sub (a * 16 + d) (b * 16 + e) x).c_flag ≡ ltb high 10)
unfolding bcd_sub
sub_digits a d b e x ha hd hb he hx =
    let src = a * 16 + d in
    let dst = b * 16 + e in
    let difference = sub32 (sub32 dst src) x in
    let s8 : src % 2 ^ 8 ≡ src = omega arith in
    let d8 : dst % 2 ^ 8 ≡ dst = omega arith in
    let s4 : src % 2 ^ 4 ≡ d = omega arith in
    let d4 : dst % 2 ^ 4 ≡ e = omega arith in
    rw
      (
        s8,
        d8,
        s4,
        d4,
        borrows e d x (omega arith) (omega arith) hx,
        borrows dst src x (omega arith) (omega arith) hx,
      )
      (elim (Bool-cases (ltb e (d + x))) [
        | inl low ↦ elim (Bool-cases (ltb dst (src + x))) [
          | inl negative ↦ rw (low, negative) (ground arith)
          | inr positive ↦
              rw (low, positive) (ground (arith, not_negative (sub32 difference 6) (ground arith)))
        ]
        | inr fits ↦ elim (Bool-cases (ltb dst (src + x))) [
          | inl negative ↦ rw (fits, negative) (ground arith)
          | inr positive ↦
              rw (fits, positive) (ground (arith, not_negative difference (ground arith)))
        ]
      ])

-- NBCD subtracts from zero.
bcd_negate-bcd_sub :
    (m x : ℕ)
    → ((bcd_negate m x).result ≡ (bcd_sub m 0 x).result)
      × ((bcd_negate m x).c_flag ≡ (bcd_sub m 0 x).c_flag)
unfolding bcd_negate bcd_sub
bcd_negate-bcd_sub m x = (refl, refl)

-- On numbers below 100 and an extend bit: the decimal difference `n - m - x`, with its borrow; and
-- NBCD is the difference from zero.
pub bcd_sub-decimal :
    (m n x : ℕ)
    → m < 100
    → n < 100
    → x ≤ 1
    → ((bcd_sub (bcd m) (bcd n) x).result ≡ bcd ((n + 100 - m - x) % 100))
      × ((bcd_sub (bcd m) (bcd n) x).c_flag ≡ ltb n (m + x))
      × ((bcd_negate (bcd m) x).result ≡ bcd ((100 - m - x) % 100))
      × ((bcd_negate (bcd m) x).c_flag ≡ ltb 0 (m + x))
bcd_sub-decimal m n x hm hn hx =
    let digits =
      sub_digits (m / 10) (m % 10) (n / 10) (n % 10) x (omega arith) (omega arith) (omega arith)
        (omega arith) hx in
    let from_zero =
      sub_digits (m / 10) (m % 10) 0 0 x (omega arith) (omega arith) (omega arith) (omega arith)
        hx in
    let same = bcd_negate-bcd_sub (bcd m) x in
    (
      ground (arith, digits),
      ground (arith, digits),
      same.0 ∙ ground (arith, from_zero),
      same.1 ∙ ground (arith, from_zero),
    )
