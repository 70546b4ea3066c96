-- ===== src/Disasm/Gives.antt =====
-- What a computation on the context returns, whatever the host and the context are, and the
-- reads, operands and lines of the disassembler under that view (src/disasm.c).
use rocket.Base.{
  ℕ, zero, suc, ◌+◌, ◌-◌, ◌/◌, ◌%◌, ◌^◌, ◌≤◌, ◌≡◌, ◌∙◌, refl, Bool, true, false, inl, inr,
  Bool-cases, Option, none, add32, u16, some, [], ◌∷◌, length, length-append, ltb, if◌then◌else◌, ⊤,
  arith,
}
use rocket.Cpu.{M68kCpu, Host, M, ok, pure, ◌>>=◌}
use rocket.Bus.{mask_address_24, memory_word}
use rocket.Disasm.Text.{Text, take, repeat, clip, decimal, hex_char, hex, hex_padded, signed}
use rocket.Disasm.Operand.{
  DisasmEa, ea_text, peek_through, peek_word, peek_long, index_text, size_str,
}

-- It ends without an exception, with a result of that kind, and it leaves the context alone where
-- the host reads no memory through a callback.
abbrev pub Gives : {A : Type 0} → (A → Type 0) → M A → Type 0
Gives {A} P m =
    (h : Host) (c : M68kCpu)
    → (a : A) × (d : M68kCpu) × (m h c ≡ (ok a, d)) × (h.read16_cb ≡ none → d ≡ c) × P a

module _ {A : Type 0} {P : A → Type 0} where
  pub pure-Gives : (a : A) → P a → Gives P (pure a)
  pure-Gives a p h c = (a, c, refl, (λ absent. refl), p)

  pub if-Gives : (b : Bool) {m n : M A} → Gives P m → Gives P n → Gives P (if b then m else n)
  if-Gives true first second = first
  if-Gives false first second = second

  pub bind-Gives :
      {B : Type 0} {Q : B → Type 0} (m : M A) (k : A → M B)
      → Gives P m
      → ((a : A) → P a → Gives Q (k a))
      → Gives Q (m >>= k)
  bind-Gives m k first next h c =
      let (a, d, run, same, p) = first h c in
      let (b, e, run2, same2, q) = next a p h d in
      (b, e, rw run run2, (λ absent. same2 absent ∙ same absent), q)

abbrev pub Any : ℕ → Type 0
Any n = ⊤

peek_through-Gives :
    (cb : Option (ℕ → M68kCpu → ℕ × M68kCpu)) (address : ℕ) (h : Host) (c : M68kCpu)
    → h.read16_cb ≡ cb
    → (v : ℕ) × (d : M68kCpu) × (peek_through cb address h c ≡ (ok v, d))
      × (h.read16_cb ≡ none → d ≡ c)
      × Any v
unfolding peek_through
peek_through-Gives (some f) address h c bound =
    let (v, d) = f address c in
    (u16 v, d, refl, (λ absent. absurd (ground (arith, bound, absent))), tt)
peek_through-Gives none address h c bound = (
  if ltb (address + 1) c.memory_size then memory_word c address else 0,
  c,
  refl,
  (λ absent. refl),
  tt,
)

pub peek_word-Gives : (pc : ℕ) → Gives Any (peek_word pc)
unfolding peek_word
peek_word-Gives pc h c = peek_through-Gives h.read16_cb (mask_address_24 pc) h c refl

pub peek_long-Gives : (pc : ℕ) → Gives Any (peek_long pc)
unfolding peek_long
peek_long-Gives pc =
    bind-Gives _ _ (peek_word-Gives pc)
      (λ high p. bind-Gives _ _ (peek_word-Gives (add32 pc 2)) (λ low q. pure-Gives _ tt))

length-take : (n : ℕ) (text : Text) → length (take n text) ≤ length text
unfolding take
length-take zero text = omega arith
length-take (suc n) [] = omega arith
length-take (suc n) (c ∷ text) = omega (arith, length-take n text)

pub length-clip : (size : ℕ) (text : Text) → length (clip size text) ≤ length text
unfolding clip
length-clip size text = length-take (size - 1) text

pub length-repeat : (n c : ℕ) → length (repeat n c) ≡ n
unfolding repeat
length-repeat zero c = refl
length-repeat (suc n) c = omega (arith, length-repeat n c)

pub length-decimal : (digits n : ℕ) → length (decimal digits n) ≤ digits
unfolding decimal
length-decimal zero n = omega arith
length-decimal (suc digits) n =
    let rest = length-decimal digits (n / 10) in
    elim (Bool-cases (ltb n 10)) [
      | inl last ↦ rw last (omega arith)
      | inr more ↦
          rw (more, length-append (decimal digits (n / 10)) ((n % 10 + b'0') ∷ []))
            (omega (arith, rest))
    ]

pub length-hex : (digits n : ℕ) → length (hex digits n) ≤ digits
unfolding hex
length-hex zero n = omega arith
length-hex (suc digits) n =
    let rest = length-hex digits (n / 16) in
    elim (Bool-cases (ltb n 16)) [
      | inl last ↦ rw last (omega arith)
      | inr more ↦
          rw (more, length-append (hex digits (n / 16)) (hex_char (n % 16) ∷ []))
            (omega (arith, rest))
    ]

pub length-hex_padded : (width n : ℕ) → length (hex_padded width n) ≡ width
unfolding hex_padded
length-hex_padded width n =
    let text = hex width n in
    let short = length-hex width n in
    rw
      (
        length-append (repeat (width - length text) b'0') text,
        length-repeat (width - length text) b'0',
      )
      (omega (arith, short))

pub length-signed : (digits bits w : ℕ) → length (signed digits bits w) ≤ digits + 1
unfolding signed
length-signed digits bits w =
    ground (arith, length-decimal digits w, length-decimal digits (2 ^ bits - w))

pub length-index_text : (ext : ℕ) → length (index_text ext) ≡ 4
unfolding index_text
length-index_text ext = ground arith

pub length-size_str : (code : ℕ) → length (size_str code) ≡ 2
unfolding size_str
length-size_str code = ground arith

-- Two extension words at most, and at most thirteen characters, which the buffer has room for.
abbrev pub EaFits : DisasmEa → Type 0
EaFits e = (e.bytes ≤ 4) × (e.bytes % 2 ≡ 0) × (length e.text ≤ 13)

ea_text-EaFits :
    (bytes : ℕ) (text : Text)
    → bytes ≤ 4
    → bytes % 2 ≡ 0
    → length text ≤ 13
    → EaFits (ea_text bytes text)
unfolding ea_text
ea_text-EaFits bytes text few even short = (few, even, omega (arith, length-clip 24 text, short))

-- An operand with one extension word, or with none.
pub word_ea-Gives :
    (pc : ℕ) (text : ℕ → Text)
    → ((w : ℕ) → length (text w) ≤ 13)
    → Gives EaFits (peek_word pc >>= λ w. pure (ea_text 2 (text w)))
word_ea-Gives pc text short =
    bind-Gives _ _ (peek_word-Gives pc)
      (λ w p. pure-Gives _ (ea_text-EaFits 2 (text w) (omega arith) refl (short w)))

pub long_ea-Gives :
    (pc : ℕ) (text : ℕ → Text)
    → ((w : ℕ) → length (text w) ≤ 13)
    → Gives EaFits (peek_long pc >>= λ w. pure (ea_text 4 (text w)))
long_ea-Gives pc text short =
    bind-Gives _ _ (peek_long-Gives pc)
      (λ w p. pure-Gives _ (ea_text-EaFits 4 (text w) (omega arith) refl (short w)))

pub plain_ea-Gives : (text : Text) → length text ≤ 13 → Gives EaFits (pure (ea_text 0 text))
plain_ea-Gives text short = pure-Gives _ (ea_text-EaFits 0 text (omega arith) refl short)
