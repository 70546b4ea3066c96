-- ===== src/Base/Bits/Fields.antt =====
-- `|` of disjoint fields and `&` with a mask of high bits, as arithmetic, at every width.
use rocket.Base.Bits.Digits.{bit_or_step, bit_and_step}
use Prim.Native.Nat.{
  ℕ, zero, suc, ◌+◌, ◌*◌, ◌/◌, ◌%◌, ◌^◌, ◌<◌, bit_and, bit_or, ◌-◌, bit_or-bitwise,
}
use mathlib.Core.Path.{◌≡◌, refl, ap, sym, ◌∙◌}
use native.Mathlib.Nat.{one-le-pow, pow-suc, div-div-eq-div-mul, pow-succ'}
use native.Mathlib.Omega.{arith}

pub bit_or-zero_fuel : (n a : ℕ) → a < n → bit_or a 0 ≡ a
bit_or-zero_fuel zero a h = absurd (omega arith)
bit_or-zero_fuel (suc n) zero h = refl
bit_or-zero_fuel (suc n) (suc a) h =
    omega (arith, bit_or_step (suc a) 0, bit_or-zero_fuel n (suc a / 2) (omega arith))

pub bit_or-zero : (a : ℕ) → bit_or a 0 ≡ a
bit_or-zero a = bit_or-zero_fuel (suc a) a (omega arith)

mul-pow-suc : (high width : ℕ) → high * 2 ^ suc width ≡ 2 * (high * 2 ^ width)
mul-pow-suc high width = omega (arith, ap (λ (t : ℕ). high * t) (pow-suc 2 width))

pub div-pow-suc : (k a : ℕ) → a / 2 ^ suc k ≡ a / 2 / 2 ^ k
div-pow-suc k a = ap (λ (t : ℕ). a / t) (pow-succ' 2 k) ∙ sym (div-div-eq-div-mul a 2 (2 ^ k))

-- `(q << k) | r` is a sum when `r` fits `k` bits.
pub bit_or_fields :
    (width high low : ℕ) → low < 2 ^ width → bit_or (high * 2 ^ width) low ≡ high * 2 ^ width + low
bit_or_fields zero high low lt = ground (arith, bit_or-zero high)
bit_or_fields (suc width) high low lt = ground (
  arith,
  bit_or_step (high * 2 ^ suc width) low,
  mul-pow-suc high width,
  bit_or_fields width high (low / 2) (omega (arith, pow-suc 2 width)),
)

-- A mask that is zero in its low `k` bits clears them.
pub bit_and_high : (k m a : ℕ) → bit_and a (m * 2 ^ k) ≡ bit_and (a / 2 ^ k) m * 2 ^ k
bit_and_high zero m a = ground arith
bit_and_high (suc k) m a = ground (
  arith,
  bit_and_step a (m * 2 ^ suc k),
  mul-pow-suc m k,
  bit_and_high k m (a / 2),
  div-pow-suc k a,
  mul-pow-suc (bit_and (a / 2 / 2 ^ k) m) k,
)

bit_or-zero_left : (b : ℕ) → bit_or 0 b ≡ b
bit_or-zero_left b = bit_or-bitwise 0 b

-- A shift right commutes with `|` and `&`.
pub bit_or-div : (k a b : ℕ) → bit_or a b / 2 ^ k ≡ bit_or (a / 2 ^ k) (b / 2 ^ k)
bit_or-div zero a b = ground arith
bit_or-div (suc k) a b = ground (
  arith,
  div-pow-suc k (bit_or a b),
  div-pow-suc k a,
  div-pow-suc k b,
  bit_or_step a b,
  bit_or-div k (a / 2) (b / 2),
)

pub bit_and-div : (k a b : ℕ) → bit_and a b / 2 ^ k ≡ bit_and (a / 2 ^ k) (b / 2 ^ k)
bit_and-div zero a b = ground arith
bit_and-div (suc k) a b = ground (
  arith,
  div-pow-suc k (bit_and a b),
  div-pow-suc k a,
  div-pow-suc k b,
  bit_and_step a b,
  bit_and-div k (a / 2) (b / 2),
)

bit_and-zero_fuel : (n a : ℕ) → a < n → bit_and a 0 ≡ 0
bit_and-zero_fuel zero a h = absurd (omega arith)
bit_and-zero_fuel (suc n) zero h = refl
bit_and-zero_fuel (suc n) (suc a) h =
    omega (arith, bit_and_step (suc a) 0, bit_and-zero_fuel n (suc a / 2) (omega arith))

pub bit_and-zero : (a : ℕ) → bit_and a 0 ≡ 0
bit_and-zero a = bit_and-zero_fuel (suc a) a (omega arith)

bit_and_fields :
    (width high low : ℕ) → low < 2 ^ width → bit_and (high * 2 ^ width + low) (2 ^ width - 1) ≡ low
bit_and_fields zero high low lt = rw bit_and-zero (omega arith)
bit_and_fields (suc width) high low lt = ground (
  arith,
  bit_and_step (high * 2 ^ suc width + low) (2 ^ suc width - 1),
  mul-pow-suc high width,
  pow-suc 2 width,
  bit_and_fields width high (low / 2) (omega (arith, pow-suc 2 width)),
)

-- A mask of `k` low bits is the remainder by `2 ^ k`.
pub bit_and_mask : (k a : ℕ) → bit_and a (2 ^ k - 1) ≡ a % 2 ^ k
bit_and_mask k a = ground (arith, one-le-pow k 2, bit_and_fields k (a / 2 ^ k) (a % 2 ^ k))

-- A bit above a number is added to it.
pub bit_or-top : (k y : ℕ) → y < 2 ^ k → bit_or y (2 ^ k) ≡ y + 2 ^ k
bit_or-top zero zero lt = refl
bit_or-top zero (suc y) lt = absurd (omega arith)
bit_or-top (suc k) y lt = ground (
  arith,
  bit_or_step y (2 ^ suc k),
  pow-suc 2 k,
  bit_or-top k (y / 2) (omega (arith, pow-suc 2 k)),
)
