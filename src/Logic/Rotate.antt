-- ===== src/Logic/Rotate.antt =====
-- What the loops of the shifts compute (src/m68k/ops_logic.c: `m68k_exec_shift`).
use native.Mathlib.Nat.{
  div-add-mod', add-mul-mod_self_right, mod-eq_of_lt, mod-lt, one-le-pow, pow-suc,
}
use rocket.Base.{
  ℕ, zero, suc, ◌+◌, ◌-◌, ◌*◌, ◌/◌, ◌%◌, ◌^◌, ◌<◌, ◌≡◌, ◌∙◌, ap, sym, refl, Bool, true, false, ◌==◌,
  leb, if◌then◌else◌, arith, bit_or_fields, bit_or-top, div-pow-suc, test_bit, shr,
}
use rocket.Cpu.{M68kSize, size_byte, size_word, size_long, size_bits}
use rocket.Flags.{msb}
use rocket.Flags.Carry.{half_range}
use rocket.Logic.Shift.{
  Shifter, ShiftKind, lsr, lsl, ror, rol, shift_round, shift_rounds, or_if, double, msb_mask,
}

-- The operand fits its size.
abbrev pub Fits : M68kSize → ℕ → Type 0
Fits size x = x < 2 ^ size_bits size

join_low : (b : Bool) (x : ℕ) → or_if b 1 (x * 2) ≡ x * 2 + (if b then 1 else 0)
join_low true x = bit_or_fields 1 x 1 (omega arith)
join_low false x = omega arith

join_top :
    (size : M68kSize) (b : Bool) (y : ℕ)
    → y < half_range size
    → or_if b (msb_mask size) y ≡ y + (if b then half_range size else 0)
join_top size_byte true y lt = bit_or-top 7 y lt
join_top size_word true y lt = bit_or-top 15 y lt
join_top size_long true y lt = bit_or-top 31 y lt
join_top size false y lt = omega arith

-- The width is twice the half range.
width : (size : M68kSize) → 2 ^ size_bits size ≡ 2 * half_range size
width size_byte = refl
width size_word = refl
width size_long = refl

msb_test : (size : M68kSize) (x : ℕ) → Fits size x → msb size x ≡ leb (half_range size) x
unfolding msb test_bit
msb_test size_byte x lt = ground arith
msb_test size_word x lt = ground arith
msb_test size_long x lt = ground arith

-- One bit to the left and back, and to the right and back, with a bit coming in at the other end.
double_lem :
    (size : M68kSize) (x : ℕ)
    → Fits size x
    → double size x ≡ (if leb (half_range size) x then x - half_range size else x) * 2
double_lem size_byte x lt = ground arith
double_lem size_word x lt = ground arith
double_lem size_long x lt = ground arith

rol_round :
    (size : M68kSize) (s : Shifter)
    → Fits size s.result
    → (shift_round rol size s).result ≡ (
        if leb (half_range size) s.result
        then (s.result - half_range size) * 2 + 1
        else s.result * 2)
unfolding shift_round
rol_round size s lt =
    rw
      (
        double_lem size s.result lt,
        msb_test size s.result lt,
        join_low (leb (half_range size) s.result)
            (if leb (half_range size) s.result then s.result - half_range size else s.result),
      )
      (ground arith)

ror_round :
    (size : M68kSize) (s : Shifter)
    → Fits size s.result
    → (shift_round ror size s).result
      ≡ s.result / 2 + (if s.result % 2 == 1 then half_range size else 0)
unfolding shift_round test_bit
ror_round size s lt =
    rw (join_top size (test_bit 0 s.result) (shr s.result 1) (ground (arith, width size)))
      (ground arith)

rol_round-Fits :
    (size : M68kSize) (s : Shifter) → Fits size s.result → Fits size (shift_round rol size s).result
rol_round-Fits size s lt = ground (arith, rol_round size s lt, width size)

-- The right rotation undoes the left one, and looks at nothing but the result.
ror-rol :
    (size : M68kSize) (s t : Shifter)
    → Fits size s.result
    → t.result ≡ (shift_round rol size s).result
    → (shift_round ror size t).result ≡ s.result
ror-rol size s t lt same =
    let fits = rol_round-Fits size s lt in
    ground (arith, rol_round size s lt, ror_round size t (rw same fits), width size)

rounds_end :
    (n : ℕ) (kind : ShiftKind) (size : M68kSize) (s : Shifter)
    → shift_rounds (suc n) kind size s ≡ shift_round kind size (shift_rounds n kind size s)
unfolding shift_rounds
rounds_end zero kind size s = refl
rounds_end (suc n) kind size s = rounds_end n kind size (shift_round kind size s)

rol_rounds-Fits :
    (n : ℕ) (size : M68kSize) (s : Shifter)
    → Fits size s.result
    → Fits size (shift_rounds n rol size s).result
unfolding shift_rounds
rol_rounds-Fits zero size s lt = lt
rol_rounds-Fits (suc n) size s lt =
    rol_rounds-Fits n size (shift_round rol size s) (rol_round-Fits size s lt)

unrotated :
    (n : ℕ) (size : M68kSize) (s t : Shifter)
    → Fits size s.result
    → t.result ≡ (shift_rounds n rol size s).result
    → (shift_rounds n ror size t).result ≡ s.result
unfolding shift_rounds
unrotated zero size s t lt same = same
unrotated (suc n) size s t lt same = unrotated n size s (shift_round ror size t) lt (
    ror-rol size (shift_rounds n rol size s) t (rol_rounds-Fits n size s lt)
      (same ∙ ap (λ (r : Shifter). r.result) (rounds_end n rol size s)))

-- At every size and for every count: the loop of ROR undoes the loop of ROL on a value of that
-- size, whatever carry, overflow and extend it starts from.
pub shift_rounds-ror_rol :
    (n : ℕ) (size : M68kSize) (s : Shifter) (carry overflow extend : Bool)
    → s.result < 2 ^ size_bits size
    → let rotated = shift_rounds n rol size s in
      (shift_rounds n ror size (record {
        result = rotated.result;
        carry = carry;
        overflow = overflow;
        extend = extend;
      })).result
      ≡ s.result
shift_rounds-ror_rol n size s carry overflow extend lt =
    unrotated n size s
      (record {
        result = (shift_rounds n rol size s).result;
        carry = carry;
        overflow = overflow;
        extend = extend;
      })
      lt refl

-- A factor may be cut before the product is.
mod-times : (a b w : ℕ) → a % w * b % w ≡ a * b % w
mod-times a b w =
    let spread : a * b ≡ a % w * b + a / w * b * w =
      ap (λ (t : ℕ). t * b) (sym (div-add-mod' a w)) ∙ grind arith in
    sym (ap (λ (t : ℕ). t % w) spread ∙ add-mul-mod_self_right (a % w * b) (a / w * b) w)

-- At every size, the loops of LSL and LSR are a product and a quotient by a power of two, the
-- product cut to the size, for a value of that size.
pub shift_rounds-power :
    (n : ℕ) (size : M68kSize) (s : Shifter)
    → s.result < 2 ^ size_bits size
    → ((shift_rounds n lsl size s).result ≡ s.result * 2 ^ n % 2 ^ size_bits size)
      × ((shift_rounds n lsr size s).result ≡ s.result / 2 ^ n)
unfolding shift_rounds shift_round
shift_rounds-power zero size s lt =
    (sym (mod-eq_of_lt lt) ∙ ap (λ (t : ℕ). t % 2 ^ size_bits size) (omega arith), omega arith)
shift_rounds-power (suc n) size s lt =
    let w = 2 ^ size_bits size in
    let left =
      shift_rounds-power n size (shift_round lsl size s)
        (mod-lt (s.result * 2) (one-le-pow (size_bits size) 2 (omega arith))) in
    let right = shift_rounds-power n size (shift_round lsr size s) (omega arith) in
    (
      left.0
          ∙ mod-times (s.result * 2) (2 ^ n) w
          ∙ ap (λ (t : ℕ). t % w) (omega (arith, ap (λ (t : ℕ). s.result * t) (pow-suc 2 n))),
      right.1 ∙ sym (div-pow-suc n s.result),
    )
