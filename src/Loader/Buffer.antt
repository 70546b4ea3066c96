-- ===== src/Loader/Buffer.antt =====
-- A line of a file as it reaches the buffer of a loader (src/loader.c: `m68k_load_srec`).
use rocket.Base.{
  ℕ, zero, suc, ◌+◌, ◌/◌, ◌%◌, ◌<◌, ◌≡◌, refl, ap, false, List, [], ◌∷◌, ◌++◌, length, arith, ◌==◌,
}
use rocket.Loader.Text.{fgets, c_string, strip_last}
use rocket.Loader.Srec.{srec_chomp}
use rocket.Loader.Digits.{put_bytes, Bytes, hex_digit}

-- Characters of a line: none ends the string or the line.
abbrev pub Plain : List ℕ → Type 0
Plain [] = Unit
Plain (c ∷ text) = ((c == 0) ≡ false) × ((c == b'\n') ≡ false) × ((c == b'\r') ≡ false) × Plain text

hex_digit-Plain : (n : ℕ) → n < 16 → Plain (hex_digit n ∷ [])
hex_digit-Plain n h = (ground arith, ground arith, ground arith, tt)

pub put_bytes-Plain : (bs : List ℕ) → Bytes bs → Plain (put_bytes bs)
put_bytes-Plain [] h = tt
put_bytes-Plain (b ∷ bs) (small, rest) =
    let (h0, h1, h2, _) = hex_digit-Plain (b / 16) (omega arith) in
    let (l0, l1, l2, _) = hex_digit-Plain (b % 16) (omega arith) in
    (h0, h1, h2, (l0, l1, l2, put_bytes-Plain bs rest))

-- `fgets` takes a line that fits with its newline, and leaves what follows.
fgets-line :
    (size : ℕ) (line rest : List ℕ)
    → Plain line
    → length line + 1 < size
    → fgets size (line ++ b'\n' ∷ rest) ≡ (line ++ b'\n' ∷ [], rest)
unfolding fgets
fgets-line zero line rest plain fits = absurd (omega arith)
fgets-line (suc zero) line rest plain fits = absurd (omega arith)
fgets-line (suc (suc size)) [] rest plain fits = refl
fgets-line (suc (suc size)) (c ∷ line) rest (p0, p1, p2, plain) fits =
    rw (p1, fgets-line (suc size) line rest plain (omega arith)) refl

c_string-line : (line : List ℕ) → Plain line → c_string (line ++ b'\n' ∷ []) ≡ line ++ b'\n' ∷ []
unfolding c_string
c_string-line [] plain = refl
c_string-line (c ∷ line) (p0, p1, p2, plain) = rw (p0, c_string-line line plain) refl

strip_last-newline : (line : List ℕ) → strip_last b'\n' (line ++ b'\n' ∷ []) ≡ line
unfolding strip_last
strip_last-newline [] = refl
strip_last-newline (c ∷ []) = refl
strip_last-newline (c ∷ d ∷ line) = ap (λ (t : List ℕ). c ∷ t) (strip_last-newline (d ∷ line))

strip_last-kept : (line : List ℕ) → Plain line → strip_last b'\r' line ≡ line
unfolding strip_last
strip_last-kept [] plain = refl
strip_last-kept (c ∷ []) (p0, p1, p2, plain) = rw p2 refl
strip_last-kept (c ∷ d ∷ line) (p0, p1, p2, plain) =
    ap (λ (t : List ℕ). c ∷ t) (strip_last-kept (d ∷ line) plain)

pub srec_chomp-line :
    (line rest : List ℕ)
    → Plain line
    → length line < 511
    → (srec_chomp (fgets 512 (line ++ b'\n' ∷ rest)).0 ≡ line)
      × ((fgets 512 (line ++ b'\n' ∷ rest)).1 ≡ rest)
unfolding srec_chomp
srec_chomp-line line rest plain fits =
    rw
      (
        fgets-line 512 line rest plain (omega arith),
        c_string-line line plain,
        strip_last-newline line,
      )
      (strip_last-kept line plain, refl)
