-- ===== src/Disasm/Decoders.antt =====
-- Extents of the lines of the `decode_` functions (src/disasm.c).
use rocket.Base.{
  ℕ, ◌*◌, ◌%◌, ◌/◌, ◌^◌, ◌≤◌, ◌≡◌, ◌∙◌, ap, refl, ◌-◌, Bool, true, false, ◌∷◌, ◌++◌, length, get_or,
  ◌==◌, if◌then◌else◌, low_bits, shr, bit_and, bit_and_high, bit_and_mask, add32, sext8, sext16,
  arith,
}
use rocket.Cpu.{M68kSize, size_byte, size_word, size_long, M}
use rocket.Decode.{reg_field, opmode_field, mode_field, ea_reg_field}
use rocket.Disasm.Text.{Text, codes, hex}
use rocket.Disasm.Line.{two_operands, cc_names, decode_move, decode_branch, decode_std_arith}
use rocket.Disasm.Gives.{Gives, if-Gives, length-hex}
use rocket.Disasm.Extent.{
  LineFits, plain_line-Gives, word_line-Gives, two_operands-Gives, std_arith_line-Gives,
  length-get_or,
}

-- A test whose outcome a branch needs.
pub test-Gives :
    {A : Type 0} {P : A → Type 0} (b : Bool) {m n : M A}
    → (b ≡ true → Gives P m)
    → (b ≡ false → Gives P n)
    → Gives P (if b then m else n)
test-Gives true first second = first refl
test-Gives false first second = second refl

pub decode_std_arith-Gives :
    (pc opcode : ℕ) (name : Text)
    → length name ≤ 5
    → (opmode_field opcode == 3) ≡ false
    → (opmode_field opcode == 7) ≡ false
    → Gives LineFits (decode_std_arith pc opcode name)
unfolding decode_std_arith
decode_std_arith-Gives pc opcode name short no_word no_long =
    test-Gives (opmode_field opcode == 0)
      (λ e. std_arith_line-Gives pc opcode name size_byte (codes ".B") true short (omega arith))
      (λ n0.
        test-Gives (opmode_field opcode == 1)
          (λ e. std_arith_line-Gives pc opcode name size_word (codes ".W") true short (omega arith))
          (λ n1.
            test-Gives (opmode_field opcode == 2)
              (λ e.
                std_arith_line-Gives pc opcode name size_long (codes ".L") true short (omega arith))
              (λ n2.
                test-Gives (opmode_field opcode == 4)
                  (λ e.
                    std_arith_line-Gives pc opcode name size_byte (codes ".B") false short
                      (omega arith))
                  (λ n4.
                    test-Gives (opmode_field opcode == 5)
                      (λ e.
                        std_arith_line-Gives pc opcode name size_word (codes ".W") false short
                          (omega arith))
                      (λ n5.
                        test-Gives (opmode_field opcode == 6)
                          (λ e.
                            std_arith_line-Gives pc opcode name size_long (codes ".L") false short
                              (omega arith))
                          (λ n6.
                            absurd (ground (arith, n0, n1, n2, no_word, n4, n5, n6, no_long))))))))

pub high_bits : (k n x : ℕ) → bit_and x ((2 ^ n - 1) * 2 ^ k) ≡ (x / 2 ^ k) % 2 ^ n * 2 ^ k
high_bits k n x = bit_and_high k (2 ^ n - 1) x ∙ ap (λ y. y * 2 ^ k) (bit_and_mask n (x / 2 ^ k))

pub decode_move-Gives :
    (pc opcode : ℕ)
    → bit_and opcode 0xC000 ≡ 0
    → (bit_and opcode 0xF000 == 0) ≡ false
    → Gives LineFits (decode_move pc opcode)
unfolding decode_move
decode_move-Gives pc opcode low some_bit =
    let size_code = low_bits (shr opcode 12) 2 in
    let two : (op : Text) (size : M68kSize)
        → length op ≤ 7
        → Gives LineFits (
            two_operands pc op (mode_field opcode) (ea_reg_field opcode) (opmode_field opcode)
              (reg_field opcode) size) =
      λ op size fits.
        two_operands-Gives pc op (mode_field opcode) (ea_reg_field opcode) (opmode_field opcode)
          (reg_field opcode) size fits in
    test-Gives (size_code == 1) (λ e. two (codes "MOVE.B") size_byte (omega arith))
      (λ n1.
        test-Gives (size_code == 3) (λ e. two (codes "MOVE.W") size_word (omega arith))
          (λ n3.
            test-Gives (size_code == 2) (λ e. two (codes "MOVE.L") size_long (omega arith))
              (λ n2. absurd (
                ground (
                  arith,
                  n1,
                  n2,
                  n3,
                  low,
                  some_bit,
                  high_bits 14 2 opcode,
                  high_bits 12 4 opcode,
                )))))

pub decode_branch-Gives : (pc opcode : ℕ) → Gives LineFits (decode_branch pc opcode)
unfolding decode_branch
decode_branch-Gives pc opcode =
    let cond = low_bits (shr opcode 8) 4 in
    let name = codes "B" ++ codes (get_or ("RA" ∷ "SR" ∷ cc_names) cond "") in
    let op = (if cond == 1 then codes "BSR" else if cond == 0 then codes "BRA" else name) in
    let short : length op ≤ 7 =
      ground (arith, length-get_or 2 ("RA" ∷ "SR" ∷ cc_names) cond refl) in
    if-Gives (low_bits opcode 8 == 0)
      (word_line-Gives (add32 pc 2) op (λ w. b'$' ∷ hex 8 (add32 (add32 pc 2) (sext16 w))) short
        (λ w. omega (arith, length-hex 8 (add32 (add32 pc 2) (sext16 w)))))
      (plain_line-Gives op (b'$' ∷ hex 8 (add32 (add32 pc 2) (sext8 (low_bits opcode 8)))) short
        (omega (arith, length-hex 8 (add32 (add32 pc 2) (sext8 (low_bits opcode 8))))))
