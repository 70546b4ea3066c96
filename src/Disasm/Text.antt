-- ===== src/Disasm/Text.antt =====
-- The text that the disassembler prints with `snprintf` (src/disasm.c).
use rocket.Base.{
  ℕ, zero, suc, ◌+◌, ◌-◌, ◌/◌, ◌%◌, ◌^◌, List, [], ◌∷◌, ◌++◌, length, ltb, if◌then◌else◌,
}
use Prim.Native.Char.{code}
use Prim.Native.String.{String}

-- A C string without its terminator.
abbrev pub Text : Type 0
Text = List ℕ

abbrev pub codes : String → Text
codes String.[] = []
codes (String.◌∷◌ c s) = code c ∷ codes s

unfoldable pub take : ℕ → Text → Text
take zero text = []
take (suc n) [] = []
take (suc n) (c ∷ text) = c ∷ take n text

unfoldable pub repeat : ℕ → ℕ → Text
repeat zero c = []
repeat (suc n) c = c ∷ repeat n c

-- What a buffer of `size` characters, one at least, holds after `snprintf` has written `text`.
unfoldable pub clip : ℕ → Text → Text
clip size text = take (size - 1) text

-- `%d` of a number of at most `digits` digits.
unfoldable pub decimal : ℕ → ℕ → Text
decimal zero n = []
decimal (suc digits) n =
    let rest = decimal digits (n / 10) in
    if ltb n 10 then (n + b'0') ∷ [] else rest ++ (n % 10 + b'0') ∷ []

unfoldable pub hex_char : ℕ → ℕ
hex_char n = if ltb n 10 then n + b'0' else n - 10 + b'A'

-- `%X` of a number of at most `digits` digits.
unfoldable pub hex : ℕ → ℕ → Text
hex zero n = []
hex (suc digits) n =
    let rest = hex digits (n / 16) in
    if ltb n 16 then hex_char n ∷ [] else rest ++ hex_char (n % 16) ∷ []

-- `%0<width>X` of a number of at most `width` digits.
unfoldable pub hex_padded : ℕ → ℕ → Text
hex_padded width n = let text = hex width n in repeat (width - length text) b'0' ++ text

-- `%-8s`.
unfoldable pub left_aligned : ℕ → Text → Text
left_aligned width text = text ++ repeat (width - length text) b' '

-- `%d` of the signed integer that `w` is the two's complement of.
unfoldable pub signed : ℕ → ℕ → ℕ → Text
signed digits bits w =
    if ltb w (2 ^ (bits - 1)) then decimal digits w else b'-' ∷ decimal digits (2 ^ bits - w)

abbrev pub s8_text : ℕ → Text
s8_text = signed 3 8

abbrev pub s16_text : ℕ → Text
s16_text = signed 5 16

-- `%d` of a register number or another number of one digit.
abbrev pub digit_text : ℕ → Text
digit_text n = (n + b'0') ∷ []
