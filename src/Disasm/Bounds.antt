-- ===== src/Disasm/Bounds.antt =====
-- What `m68k_disasm` returns and writes (src/disasm.c).
use rocket.Base.{
  ℕ, zero, suc, ◌-◌, ◌%◌, ◌≤◌, ◌≡◌, ◌∙◌, sym, ap, refl, false, not, ◌&&◌, Option, none, some, [],
  ◌∷◌, length, length-append, ◌==◌, if◌then◌else◌, bit_and, arith,
}
use rocket.Cpu.{M68kCpu, Host, ok}
use rocket.Disasm.Text.{Text, codes, take, clip, left_aligned}
use rocket.Disasm.Line.{Line}
use rocket.Disasm.Dyadic.{moveq_line}
use rocket.Disasm.Run.{disasm_line, listing, m68k_disasm}
use rocket.Disasm.Gives.{
  Gives, pure-Gives, if-Gives, bind-Gives, peek_word-Gives, length-hex_padded, length-repeat,
}
use rocket.Disasm.Extent.{LineFits}
use rocket.Disasm.Decoders.{test-Gives, decode_move-Gives, decode_branch-Gives}
use rocket.Disasm.Groups.{group_0-Gives, unknown-Gives}
use rocket.Disasm.Miscellany.{group_4-Gives}
use rocket.Disasm.Quick.{
  group_5-Gives, moveq_line-LineFits, group_8-Gives, add_group-Gives, group_b-Gives, group_c-Gives,
  group_e-Gives,
}

disasm_line-Gives : (pc opcode : ℕ) → Gives LineFits (disasm_line pc opcode)
unfolding disasm_line
disasm_line-Gives pc opcode =
    let top = bit_and opcode 0xF000 in
    test-Gives (top == 0x0000) (λ e. group_0-Gives pc opcode)
      (λ some_bit.
        test-Gives (bit_and opcode 0xC000 == 0 && not (top == 0))
          (λ e. decode_move-Gives pc opcode (ground (arith, e)) some_bit)
          (λ high. if-Gives (top == 0x4000) (group_4-Gives pc opcode) (
            if-Gives (top == 0x5000) (group_5-Gives pc opcode) (
              if-Gives (top == 0x6000) (decode_branch-Gives pc opcode) (
                if-Gives (top == 0x7000)
                  (pure-Gives (moveq_line opcode) (moveq_line-LineFits opcode))
                  (if-Gives (top == 0x8000) (group_8-Gives pc opcode) (
                    if-Gives (top == 0x9000) (add_group-Gives pc opcode (codes "SUB") (omega arith))
                      (if-Gives (top == 0xB000) (group_b-Gives pc opcode) (
                        if-Gives (top == 0xC000) (group_c-Gives pc opcode) (
                          if-Gives (top == 0xD000)
                            (add_group-Gives pc opcode (codes "ADD") (omega arith))
                            (if-Gives (top == 0xE000) (group_e-Gives pc opcode)
                              unknown-Gives)))))))))))

length-left_aligned :
    (width : ℕ) (text : Text) → length text ≤ width → length (left_aligned width text) ≡ width
unfolding left_aligned
length-left_aligned width text h =
    simp length-append (omega (arith, length-repeat (width - length text) b' ', h))

length-listing : (opcode : ℕ) (l : Line) → LineFits l → length (listing opcode l) ≤ 43
unfolding listing
length-listing opcode l (least, most, even, short, fits) =
    let op = length-left_aligned 8 l.op (omega (arith, short)) in
    simp length-append (omega (arith, length-hex_padded 4 opcode, op, fits))

take-all : (n : ℕ) (text : Text) → length text ≤ n → take n text ≡ text
unfolding take
take-all zero [] h = refl
take-all zero (c ∷ text) h = absurd (omega arith)
take-all (suc n) [] h = refl
take-all (suc n) (c ∷ text) h = ap (λ rest. c ∷ rest) (take-all n text (omega arith))

clip-whole :
    (size : ℕ) (text : Text)
    → 44 ≤ size
    → length text ≤ 43
    → (if size == 0 then none else some (clip size text)) ≡ some text
unfolding clip
clip-whole size text room whole =
    let some_room : (size == 0) ≡ false = ground (arith, room) in
    rw (some_room, take-all (size - 1) text (omega (arith, room, whole))) refl

-- A result of the disassembler: the length of a line that fits, and its listing, cut to the buffer.
abbrev Listed : ℕ → ℕ × Option Text → Type 0
Listed buf_size (len, text) =
    (opcode : ℕ) × (l : Line) × LineFits l
    × (len ≡ l.len)
    × (text ≡ (if buf_size == 0 then none else some (clip buf_size (listing opcode l))))

both : {A B : Type 0} {p : A × B} {a : A} {b : B} → p.0 ≡ a → p.1 ≡ b → p ≡ (a, b)
both first second = rw (sym first, sym second) refl

m68k_disasm-Gives : (pc buf_size : ℕ) → Gives (Listed buf_size) (m68k_disasm pc buf_size)
unfolding m68k_disasm
m68k_disasm-Gives pc buf_size = bind-Gives _ _ (peek_word-Gives pc) (λ opcode p.
    bind-Gives _ _ (disasm_line-Gives pc opcode)
      (λ l fits. pure-Gives _ (opcode, l, fits, refl, refl)))

-- Whatever the host and the memory are, the disassembler ends without an exception at every
-- address, the length that it returns is even, from 2 to 10, and a buffer of 44 characters or more
-- receives the whole listing, which has at most 43. The mnemonic in it has at most 7 characters
-- and the arguments have at most 28, so that neither was cut off in its own buffer.
pub m68k_disasm-bounds :
    (pc buf_size : ℕ) (h : Host) (c : M68kCpu)
    → 44 ≤ buf_size
    → (l : Line) × (opcode : ℕ) × (d : M68kCpu) × (m68k_disasm pc buf_size h c
        ≡ (ok (l.len, some (listing opcode l)), d))
      × (2 ≤ l.len)
      × (l.len ≤ 10)
      × (l.len % 2 ≡ 0)
      × (length (listing opcode l) ≤ 43)
      × (length l.op ≤ 7)
      × (length l.args ≤ 28)
m68k_disasm-bounds pc buf_size h c room =
    let (r, d, run, same, (opcode, l, fits, len_l, text_l)) = m68k_disasm-Gives pc buf_size h c in
    let (least, most, even, short, narrow) = fits in
    let whole = length-listing opcode l fits in
    let filled = text_l ∙ clip-whole buf_size (listing opcode l) room whole in
    (
      l,
      opcode,
      d,
      run ∙ ap (λ x. (ok x, d)) (both len_l filled),
      least,
      most,
      even,
      whole,
      short,
      narrow,
    )

-- A look at the code changes nothing: where the host reads no memory through a callback, the
-- context is the same after the disassembler as before it, cycles, faults and registers included.
pub m68k_disasm-kept :
    (pc buf_size : ℕ) (h : Host) (c : M68kCpu)
    → h.read16_cb ≡ none
    → (m68k_disasm pc buf_size h c).1 ≡ c
m68k_disasm-kept pc buf_size h c absent =
    let (r, d, run, same, listed) = m68k_disasm-Gives pc buf_size h c in
    ap (λ x. x.1) run ∙ same absent
