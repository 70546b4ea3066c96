-- ===== src/Disasm/Extent.antt =====
-- Extents of lines: their lengths in bytes, their mnemonics and arguments (src/disasm.c).
use rocket.Base.{
  ℕ, zero, suc, ◌+◌, ◌%◌, ◌≤◌, ◌≡◌, refl, Bool, true, ◌&&◌, List, [], ◌∷◌, ◌++◌, length,
  length-append, get_or, leb, add32, arith,
}
use rocket.Cpu.{M68kSize, pure, ◌>>=◌}
use rocket.Decode.{reg_field, mode_field, ea_reg_field, size_field}
use rocket.Disasm.Text.{Text, codes}
use rocket.Disasm.Operand.{peek_word, size_str}
use rocket.Disasm.Line.{
  Line, line, operand_line, ea_line, pair_text, d_text, code_size, two_operands, std_arith_line,
  decode_imm_arith,
}
use rocket.Disasm.Gives.{
  Gives, pure-Gives, if-Gives, bind-Gives, peek_word-Gives, length-clip, length-size_str,
}
use rocket.Disasm.Operands.{disasm_ea-Gives}
use Prim.Native.String.{String}

-- One to five words, a mnemonic of at most seven characters and at most 28 of arguments, which
-- the buffers have room for.
abbrev pub LineFits : Line → Type 0
LineFits l = (2 ≤ l.len) × (l.len ≤ 10) × (l.len % 2 ≡ 0) × (length l.op ≤ 7) × (length l.args ≤ 28)

pub line-LineFits :
    (len : ℕ) (op args : Text)
    → (2 ≤ len) × (len ≤ 10) × (len % 2 ≡ 0)
    → length op ≤ 7
    → length args ≤ 28
    → LineFits (line len op args)
unfolding line
line-LineFits len op args (least, most, even) short fits = (
  least,
  most,
  even,
  omega (arith, length-clip 32 op, short),
  omega (arith, length-clip 64 args, fits),
)

pub plain_line-Gives :
    (op args : Text) → length op ≤ 7 → length args ≤ 28 → Gives LineFits (pure (line 2 op args))
plain_line-Gives op args short fits =
    pure-Gives _ (line-LineFits 2 op args (omega arith, omega arith, refl) short fits)

pub word_line-Gives :
    (pc : ℕ) (op : Text) (args : ℕ → Text)
    → length op ≤ 7
    → ((w : ℕ) → length (args w) ≤ 28)
    → Gives LineFits (peek_word pc >>= λ w. pure (line 4 op (args w)))
word_line-Gives pc op args short fits = bind-Gives _ _ (peek_word-Gives pc) (λ w p.
    pure-Gives _ (line-LineFits 4 op (args w) (omega arith, omega arith, refl) short (fits w)))

pub operand_line-Gives :
    (pc len : ℕ) (op before : Text) (mode reg : ℕ) (size : M68kSize) (after : Text)
    → (2 ≤ len) × (len ≤ 6) × (len % 2 ≡ 0)
    → length op ≤ 7
    → length before + length after ≤ 15
    → Gives LineFits (operand_line pc len op before mode reg size after)
unfolding operand_line
operand_line-Gives pc len op before mode reg size after (least, most, even) short fits =
    bind-Gives _ _ (disasm_ea-Gives (add32 pc len) mode reg size) (λ ea (few, words, narrow).
      pure-Gives _ (
        line-LineFits (len + ea.bytes) op (before ++ ea.text ++ after)
          (omega arith, omega arith, omega arith) short
          (simp length-append (omega (arith, fits, narrow)))))

pub ea_line-Gives :
    (pc opcode : ℕ) (op before : Text) (size : M68kSize) (after : Text)
    → length op ≤ 7
    → length before + length after ≤ 15
    → Gives LineFits (ea_line pc opcode op before size after)
unfolding ea_line
ea_line-Gives pc opcode op before size after short fits =
    operand_line-Gives pc 2 op before (mode_field opcode) (ea_reg_field opcode) size after
      (omega arith, omega arith, refl) short fits

pub length-pair_text : (opcode : ℕ) → length (pair_text opcode) ≤ 28
unfolding pair_text
length-pair_text opcode = ground arith

pub two_operands-Gives :
    (pc : ℕ) (op : Text) (mode reg mode2 reg2 : ℕ) (size : M68kSize)
    → length op ≤ 7
    → Gives LineFits (two_operands pc op mode reg mode2 reg2 size)
unfolding two_operands
two_operands-Gives pc op mode reg mode2 reg2 size short =
    bind-Gives _ _ (disasm_ea-Gives (add32 pc 2) mode reg size) (λ first (few, words, narrow).
      bind-Gives _ _ (disasm_ea-Gives (add32 pc (2 + first.bytes)) mode2 reg2 size)
        (λ second (few2, words2, narrow2). pure-Gives _ (
          line-LineFits (2 + first.bytes + second.bytes) op
            (first.text ++ codes ", " ++ second.text) (omega arith, omega arith, omega arith) short
            (simp length-append (omega (arith, narrow, narrow2))))))

-- The names of a table, none of more than `k` characters.
abbrev pub all_short : ℕ → List String → Bool
all_short k [] = true
all_short k (s ∷ names) = leb (length (codes s)) k && all_short k names

pub length-get_or :
    (k : ℕ) (names : List String) (n : ℕ)
    → all_short k names ≡ true
    → length (codes (get_or names n "")) ≤ k
length-get_or k [] n h = omega arith
length-get_or k (s ∷ names) zero h = ground arith
length-get_or k (s ∷ names) (suc n) h = length-get_or k names n (ground arith)

pub decode_imm_arith-Gives :
    (pc opcode : ℕ) (name : Text)
    → length name ≤ 5
    → Gives LineFits (decode_imm_arith pc opcode name)
unfolding decode_imm_arith
decode_imm_arith-Gives pc opcode name short =
    two_operands-Gives pc (name ++ size_str (size_field opcode)) 7 4 (mode_field opcode)
      (ea_reg_field opcode) (code_size (size_field opcode))
      (simp length-append (omega (arith, short, length-size_str (size_field opcode))))

pub std_arith_line-Gives :
    (pc opcode : ℕ) (name : Text) (size : M68kSize) (sz : Text) (dn_dest : Bool)
    → length name ≤ 5
    → length sz ≤ 2
    → Gives LineFits (std_arith_line pc opcode name size sz dn_dest)
unfolding std_arith_line
std_arith_line-Gives pc opcode name size sz dn_dest short shorter =
    let op : length (name ++ sz) ≤ 7 = simp length-append (omega (arith, short, shorter)) in
    if-Gives dn_dest
      (ea_line-Gives pc opcode (name ++ sz) [] size (codes ", " ++ d_text (reg_field opcode)) op
        (omega arith))
      (ea_line-Gives pc opcode (name ++ sz) (d_text (reg_field opcode) ++ codes ", ") size [] op
        (omega arith))
