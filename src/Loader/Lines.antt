-- ===== src/Loader/Lines.antt =====
-- The buffer of a line, and the records that do not fit it (src/loader.c: `m68k_load_srec`).
use rocket.Base.{ℕ, zero, suc, ◌≤◌, ◌≡◌, false, List, [], ◌∷◌, length, drop, arith}
use rocket.Cpu.{M68kCpu, Host, ok}
use rocket.Loader.Text.{fgets, c_string, strip_last, parse_byte}
use rocket.Loader.Srec.{srec_is_whole, srec_line, srec_chomp}

length-fgets : (n : ℕ) (text : List ℕ) → length (fgets (suc n) text).0 ≤ n
unfolding fgets
length-fgets zero text = omega arith
length-fgets (suc n) [] = omega arith
length-fgets (suc n) (c ∷ text) = ground (arith, length-fgets n text)

length-c_string : (text : List ℕ) → length (c_string text) ≤ length text
unfolding c_string
length-c_string [] = omega arith
length-c_string (c ∷ text) = ground (arith, length-c_string text)

length-strip_last : (c : ℕ) (text : List ℕ) → length (strip_last c text) ≤ length text
unfolding strip_last
length-strip_last c [] = omega arith
length-strip_last c (x ∷ []) = ground arith
length-strip_last c (x ∷ y ∷ text) = omega (arith, length-strip_last c (y ∷ text))

-- Whatever text follows in the file: where the line that the loader reads next announces 254 bytes or
-- more, the record is skipped, and neither the memory nor the program counter changes. The format
-- allows 255.
pub srec_line-too_long :
    (text : List ℕ) (h : Host) (c : M68kCpu)
    → 254 ≤ parse_byte (drop 2 (srec_chomp (fgets 512 text).0))
    → srec_line (srec_chomp (fgets 512 text).0) h c ≡ (ok false, c)
unfolding srec_line srec_is_whole srec_chomp
srec_line-too_long text h c long =
    let buffer = (fgets 512 text).0 in
    let line = srec_chomp buffer in
    ground (
      arith,
      length-fgets 511 text,
      length-c_string buffer,
      length-strip_last b'\n' (c_string buffer),
      length-strip_last b'\r' (strip_last b'\n' (c_string buffer)),
    )
