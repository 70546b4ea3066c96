-- ===== src/Base/Bits/Digits.antt =====
-- The native operations recurse on binary digits with fuel: here, their equation without it.
use Prim.Native.Nat.{
  ℕ, zero, suc, ◌+◌, ◌*◌, ◌/◌, ◌%◌, ◌≤◌, min, max, bit_and, bit_or, digits, bitwise,
  bit_and-bitwise, bit_or-bitwise,
}
use mathlib.Core.Path.{◌≡◌, refl, ◌∙◌}
use mathlib.Core.Logic.{◌⊎◌, inl, inr}
use native.Mathlib.Omega.{arith}

last_or_before : (a n : ℕ) → a ≤ suc n → (a ≤ n) ⊎ (suc n ≡ a)
last_or_before a n le = ground arith

module _ (end : ℕ → ℕ) (combine : ℕ → ℕ → ℕ) where
  spare : (n a b : ℕ) → a ≤ n → digits end combine (suc n) a b ≡ digits end combine n a b
  spare zero zero b le = refl
  spare zero (suc a) b le = absurd (omega arith)
  spare (suc n) zero b le = refl
  spare (suc n) (suc a) b le = rw (spare n (suc a / 2) (b / 2) (omega arith)) refl

  -- Fuel beyond the number itself is spare.
  exact : (n a b : ℕ) → a ≤ n → digits end combine n a b ≡ digits end combine a a b
  exact zero zero b le = refl
  exact zero (suc a) b le = absurd (omega arith)
  exact (suc n) a b le = elim (last_or_before a n le) [
    | inl before ↦ spare n a b before ∙ exact n a b before
    | inr last ↦ rw last refl
  ]

  -- One step, where the end of the first number behaves as a step on zeros.
  bitwise_step :
      ((b : ℕ) → end b ≡ end (b / 2) * 2 + combine 0 (b % 2))
      → (a b : ℕ)
      → bitwise end combine a b ≡ bitwise end combine (a / 2) (b / 2) * 2 + combine (a % 2) (b % 2)
  bitwise_step ends zero b = ends b
  bitwise_step ends (suc a) b = rw (exact a (suc a / 2) (b / 2) (omega arith)) refl

pub bit_or_step : (a b : ℕ) → bit_or a b ≡ bit_or (a / 2) (b / 2) * 2 + max (a % 2) (b % 2)
bit_or_step a b = simp bit_or-bitwise (bitwise_step (λ y. y) max (λ b. omega arith) a b)

pub bit_and_step : (a b : ℕ) → bit_and a b ≡ bit_and (a / 2) (b / 2) * 2 + min (a % 2) (b % 2)
bit_and_step a b = simp bit_and-bitwise (bitwise_step (λ y. 0) min (λ b. omega arith) a b)
