-- ===== src/Disasm/Numbers.antt =====
-- The digits that the disassembler prints (src/disasm.c): the bound on their number is enough.
use rocket.Base.{
  ℕ, zero, suc, ◌+◌, ◌-◌, ◌*◌, ◌/◌, ◌%◌, ◌^◌, ◌<◌, ◌≡◌, refl, inl, inr, Bool-cases, [], ◌∷◌, ◌++◌,
  ltb, arith,
}
use rocket.Loader.{hex_val}
use rocket.Disasm.Text.{Text, decimal, hex_char, hex}

-- The number that digits in a base stand for, after those that have been read.
abbrev read_digits : ℕ → (ℕ → ℕ) → Text → ℕ → ℕ
read_digits base value [] before = before
read_digits base value (c ∷ text) before = read_digits base value text (before * base + value c)

read_digits-snoc :
    (base : ℕ) (value : ℕ → ℕ) (text : Text) (c before : ℕ)
    → read_digits base value (text ++ c ∷ []) before
      ≡ read_digits base value text before * base + value c
read_digits-snoc base value [] c before = refl
read_digits-snoc base value (d ∷ text) c before =
    read_digits-snoc base value text c (before * base + value d)

hex_val-hex_char : (n : ℕ) → n < 16 → hex_val (hex_char n) ≡ n
unfolding hex_val hex_char
hex_val-hex_char n h = ground arith

-- The printed decimal digits read back as the number, when it has at most that many.
read_digits-decimal :
    (digits n : ℕ) → n < 10 ^ digits → read_digits 10 (λ c. c - b'0') (decimal digits n) 0 ≡ n
unfolding decimal
read_digits-decimal zero n h = omega (arith, h)
read_digits-decimal (suc digits) n h = elim (Bool-cases (ltb n 10)) [
  | inl last ↦ rw last (omega arith)
  | inr more ↦
      let rest = read_digits-decimal digits (n / 10) (omega (arith, h)) in
      rw
        (
          more,
          read_digits-snoc 10 (λ c. c - b'0') (decimal digits (n / 10)) (n % 10 + b'0') 0,
          rest,
        )
        (omega arith)
]

-- So do the hexadecimal digits, read by the loader.
read_digits-hex : (digits n : ℕ) → n < 16 ^ digits → read_digits 16 hex_val (hex digits n) 0 ≡ n
unfolding hex
read_digits-hex zero n h = omega (arith, h)
read_digits-hex (suc digits) n h = elim (Bool-cases (ltb n 16)) [
  | inl last ↦ rw last (omega (arith, hex_val-hex_char n (ground (arith, last))))
  | inr more ↦
      let rest = read_digits-hex digits (n / 16) (omega (arith, h)) in
      rw (more, read_digits-snoc 16 hex_val (hex digits (n / 16)) (hex_char (n % 16)) 0, rest)
        (omega (arith, hex_val-hex_char (n % 16) (omega arith)))
]
