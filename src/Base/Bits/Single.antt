-- ===== src/Base/Bits/Single.antt =====
-- The value of one bit, under `&` and `|`.
use rocket.Base.Bits.Digits.{bit_or_step, bit_and_step}
use rocket.Base.Bits.Fields.{div-pow-suc}
use rocket.Base.Tests.{◌==◌}
use Prim.Native.Nat.{ℕ, zero, suc, ◌/◌, ◌%◌, ◌^◌, min, max, bit_and, bit_or}
use mathlib.Core.Path.{◌≡◌}
use mathlib.Core.Bool.{Bool, ◌&&◌, ◌||◌}
use native.Mathlib.Omega.{arith}

-- Bit `k` of `n`, as C's `(n & (1 << k)) != 0`.
unfoldable pub test_bit : ℕ → ℕ → Bool
test_bit k n = n / 2 ^ k % 2 == 1

digit-bit_or : (k a b : ℕ) → bit_or a b / 2 ^ k % 2 ≡ max (a / 2 ^ k % 2) (b / 2 ^ k % 2)
digit-bit_or zero a b = omega (arith, bit_or_step a b)
digit-bit_or (suc k) a b = ground (
  arith,
  div-pow-suc k (bit_or a b),
  div-pow-suc k a,
  div-pow-suc k b,
  bit_or_step a b,
  digit-bit_or k (a / 2) (b / 2),
)

digit-bit_and : (k a b : ℕ) → bit_and a b / 2 ^ k % 2 ≡ min (a / 2 ^ k % 2) (b / 2 ^ k % 2)
digit-bit_and zero a b = omega (arith, bit_and_step a b)
digit-bit_and (suc k) a b = ground (
  arith,
  div-pow-suc k (bit_and a b),
  div-pow-suc k a,
  div-pow-suc k b,
  bit_and_step a b,
  digit-bit_and k (a / 2) (b / 2),
)

pub test_bit-bit_or : (k a b : ℕ) → test_bit k (bit_or a b) ≡ (test_bit k a || test_bit k b)
unfolding test_bit
test_bit-bit_or k a b = ground (arith, digit-bit_or k a b)

pub test_bit-bit_and : (k a b : ℕ) → test_bit k (bit_and a b) ≡ (test_bit k a && test_bit k b)
unfolding test_bit
test_bit-bit_and k a b = ground (arith, digit-bit_and k a b)
