-- ===== src/Disasm/Quick.antt =====
-- Extents of the lines of the opcodes that start with 5 to E (src/disasm.c).
use rocket.Base.{
  ℕ, ◌+◌, ◌-◌, ◌*◌, ◌≤◌, refl, ◌&&◌, ◌||◌, [], ◌∷◌, ◌++◌, length, length-append, get_or, ◌==◌, leb,
  if◌then◌else◌, low_bits, shr, bit_and, test_bit, add32, sext16, arith,
}
use rocket.Cpu.{size_byte, size_word, size_long, pure}
use rocket.Decode.{reg_field, opmode_field, mode_field, ea_reg_field, size_field}
use rocket.Disasm.Text.{Text, codes, hex}
use rocket.Disasm.Operand.{size_str}
use rocket.Disasm.Line.{line, cc_names, code_size, d_text, a_text, pair_text}
use rocket.Disasm.Dyadic.{
  cond_name, dbcc_line, quick_text, group_5, moveq_line, word_line, group_8, address_line,
  add_group, cmpm_line, group_b, exg_line, group_c, mem_ops, reg_ops, shift_line, group_e,
}
use rocket.Disasm.Gives.{Gives, pure-Gives, if-Gives, length-hex, length-signed, length-size_str}
use rocket.Disasm.Extent.{
  LineFits, line-LineFits, plain_line-Gives, word_line-Gives, ea_line-Gives, length-pair_text,
  length-get_or,
}
use rocket.Disasm.Decoders.{test-Gives, decode_std_arith-Gives}

length-cond_name : (opcode : ℕ) → length (cond_name opcode) ≤ 2
length-cond_name opcode = length-get_or 2 ("T" ∷ "F" ∷ cc_names) (low_bits (shr opcode 8) 4) refl

dbcc_line-Gives : (pc opcode : ℕ) → Gives LineFits (dbcc_line pc opcode)
unfolding dbcc_line
dbcc_line-Gives pc opcode =
    word_line-Gives (add32 pc 2) (codes "DB" ++ cond_name opcode)
      (λ w. d_text (ea_reg_field opcode) ++ codes ", $" ++ hex 8 (add32 (add32 pc 2) (sext16 w)))
      (omega (arith, length-cond_name opcode))
      (λ w. omega (arith, length-hex 8 (add32 (add32 pc 2) (sext16 w))))

pub group_5-Gives : (pc opcode : ℕ) → Gives LineFits (group_5 pc opcode)
unfolding group_5
group_5-Gives pc opcode =
    let name : Text = (if test_bit 8 opcode then codes "SUB" else codes "ADD") in
    let short : length (name ++ codes "Q" ++ size_str (size_field opcode)) ≤ 7 =
      simp length-append (ground (arith, length-size_str (size_field opcode))) in
    if-Gives (bit_and opcode 0xC0 == 0xC0)
      (if-Gives (mode_field opcode == 1) (dbcc_line-Gives pc opcode) (
        ea_line-Gives pc opcode (codes "S" ++ cond_name opcode) [] size_byte []
          (omega (arith, length-cond_name opcode)) (omega arith)))
      (ea_line-Gives pc opcode (name ++ codes "Q" ++ size_str (size_field opcode))
        (codes "#" ++ quick_text (reg_field opcode) ++ codes ", ") (code_size (size_field opcode))
        [] short (omega arith))

pub moveq_line-LineFits : (opcode : ℕ) → LineFits (moveq_line opcode)
unfolding moveq_line
moveq_line-LineFits opcode =
    line-LineFits 2 (codes "MOVEQ") _ (omega arith, omega arith, refl) (omega arith)
      (simp length-append (omega (arith, length-signed 3 8 (low_bits opcode 8))))

word_line-Fits :
    (pc opcode : ℕ) (name : Text) → length name ≤ 7 → Gives LineFits (word_line pc opcode name)
word_line-Fits pc opcode name short =
    ea_line-Gives pc opcode name [] size_word (codes ", " ++ d_text (reg_field opcode)) short
      (omega arith)

pair_line-Gives :
    (op : Text) (opcode : ℕ) → length op ≤ 7 → Gives LineFits (pure (line 2 op (pair_text opcode)))
pair_line-Gives op opcode short =
    plain_line-Gives op (pair_text opcode) short (length-pair_text opcode)

pub group_8-Gives : (pc opcode : ℕ) → Gives LineFits (group_8 pc opcode)
unfolding group_8
group_8-Gives pc opcode =
    test-Gives (opmode_field opcode == 3)
      (λ e. word_line-Fits pc opcode (codes "DIVU.W") (omega arith))
      (λ n3.
        test-Gives (opmode_field opcode == 7)
          (λ e. word_line-Fits pc opcode (codes "DIVS.W") (omega arith))
          (λ n7.
            if-Gives (bit_and opcode 0x1F0 == 0x100)
              (pair_line-Gives (codes "SBCD") opcode (omega arith))
              (decode_std_arith-Gives pc opcode (codes "OR") (omega arith) n3 n7)))

address_line-Gives :
    (pc opcode : ℕ) (name : Text) → length name ≤ 5 → Gives LineFits (address_line pc opcode name)
unfolding address_line
address_line-Gives pc opcode name short =
    let after = codes ", " ++ a_text (reg_field opcode) in
    if-Gives (opmode_field opcode == 3)
      (ea_line-Gives pc opcode (name ++ codes ".W") [] size_word after
        (simp length-append (omega (arith, short))) (omega arith))
      (ea_line-Gives pc opcode (name ++ codes ".L") [] size_long after
        (simp length-append (omega (arith, short))) (omega arith))

pub add_group-Gives :
    (pc opcode : ℕ) (name : Text) → length name ≤ 4 → Gives LineFits (add_group pc opcode name)
unfolding add_group
add_group-Gives pc opcode name short =
    test-Gives (opmode_field opcode == 3 || opmode_field opcode == 7)
      (λ e.
        address_line-Gives pc opcode (name ++ codes "A")
          (simp length-append (omega (arith, short))))
      (λ n.
        if-Gives (bit_and opcode 0x0130 == 0x0100)
          (pair_line-Gives (name ++ codes "X" ++ size_str (size_field opcode)) opcode
            (simp length-append (omega (arith, short, length-size_str (size_field opcode)))))
          (decode_std_arith-Gives pc opcode name (omega (arith, short)) (ground (arith, n))
            (ground (arith, n))))

cmpm_line-LineFits : (opcode : ℕ) → LineFits (cmpm_line opcode)
unfolding cmpm_line
cmpm_line-LineFits opcode =
    line-LineFits 2 (codes "CMPM" ++ size_str (opmode_field opcode - 4)) _
      (omega arith, omega arith, refl) (omega (arith, length-size_str (opmode_field opcode - 4)))
      (omega arith)

pub group_b-Gives : (pc opcode : ℕ) → Gives LineFits (group_b pc opcode)
unfolding group_b
group_b-Gives pc opcode =
    test-Gives (opmode_field opcode == 3 || opmode_field opcode == 7)
      (λ e. address_line-Gives pc opcode (codes "CMPA") (omega arith))
      (λ n.
        if-Gives (leb 4 (opmode_field opcode) && mode_field opcode == 1)
          (pure-Gives (cmpm_line opcode) (cmpm_line-LineFits opcode))
          (if-Gives (leb 4 (opmode_field opcode))
            (decode_std_arith-Gives pc opcode (codes "EOR") (omega arith) (ground (arith, n))
              (ground (arith, n)))
            (decode_std_arith-Gives pc opcode (codes "CMP") (omega arith) (ground (arith, n))
              (ground (arith, n)))))

exg_line-LineFits : (opcode : ℕ) → LineFits (exg_line opcode)
unfolding exg_line
exg_line-LineFits opcode =
    line-LineFits 2 (codes "EXG") _ (omega arith, omega arith, refl) (omega arith) (ground arith)

pub group_c-Gives : (pc opcode : ℕ) → Gives LineFits (group_c pc opcode)
unfolding group_c
group_c-Gives pc opcode =
    test-Gives (opmode_field opcode == 3)
      (λ e. word_line-Fits pc opcode (codes "MULU.W") (omega arith))
      (λ n3.
        test-Gives (opmode_field opcode == 7)
          (λ e. word_line-Fits pc opcode (codes "MULS.W") (omega arith))
          (λ n7.
            if-Gives (bit_and opcode 0x1F0 == 0x100)
              (pair_line-Gives (codes "ABCD") opcode (omega arith))
              (if-Gives (bit_and opcode 0x0130 == 0x0100)
                (pure-Gives (exg_line opcode) (exg_line-LineFits opcode))
                (decode_std_arith-Gives pc opcode (codes "AND") (omega arith) n3 n7))))

shift_line-LineFits : (opcode : ℕ) → LineFits (shift_line opcode)
unfolding shift_line
shift_line-LineFits opcode =
    let base = length-get_or 3 reg_ops (low_bits (shr opcode 3) 2) refl in
    line-LineFits 2 _ _ (omega arith, omega arith, refl)
      (simp length-append (ground (arith, base, length-size_str (size_field opcode))))
      (ground arith)

pub group_e-Gives : (pc opcode : ℕ) → Gives LineFits (group_e pc opcode)
unfolding group_e
group_e-Gives pc opcode =
    let n = low_bits (shr opcode 9) 2 * 2 + low_bits (shr opcode 8) 1 in
    if-Gives (bit_and opcode 0xC0 == 0xC0)
      (ea_line-Gives pc opcode (codes (get_or mem_ops n "") ++ codes ".W") [] size_word []
        (simp length-append (omega (arith, length-get_or 4 mem_ops n refl))) (omega arith))
      (pure-Gives (shift_line opcode) (shift_line-LineFits opcode))
