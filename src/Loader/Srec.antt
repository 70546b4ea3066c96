-- ===== src/Loader/Srec.antt =====
-- `m68k_load_srec`.
use rocket.Base.{
  ℕ, zero, suc, ◌+◌, ◌-◌, ◌*◌, Bool, true, false, not, ◌&&◌, ◌||◌, List, [], ◌∷◌, length, get_or,
  drop, Option, none, some, ⊤, ◌==◌, ltb, if◌then◌else◌, bit_or, shl, low_bits, u32,
}
use rocket.Cpu.{exhausted, M, pure, ◌>>=◌, ◌>>◌}
use rocket.Exception.{m68k_set_pc}
use rocket.Loader.Text.{
  fgets, c_string, strip_last, is_valid_hex, parse_byte, sum_bytes, store_digits,
}

-- `switch (type)`: the length of the address, or none where the record is skipped.
unfoldable pub srec_addr_len : ℕ → Option ℕ
srec_addr_len type =
    if type == b'0' || type == b'1'
    then some 2
    else if type == b'2'
    then some 3
    else if type == b'3'
    then some 4
    else if type == b'7'
    then some 4
    else if type == b'8'
    then some 3
    else if type == b'9'
    then some 2
    else none

-- `for (i = 0; i < n; i++) addr = (addr << 8) | parse_byte(...)`.
unfoldable pub parse_address : ℕ → List ℕ → ℕ → ℕ
parse_address zero ptr addr = addr
parse_address (suc n) ptr addr =
    parse_address n (drop 2 ptr) (bit_or (u32 (shl addr 8)) (parse_byte ptr))

-- The tests that a record has to pass before its type is looked at.
unfoldable pub srec_is_whole : List ℕ → Bool
srec_is_whole line =
    not (ltb (length line) 4)
    && get_or line 0 0 == b'S'
    && is_valid_hex (drop 2 line) 2
    && not (ltb (length line) (4 + parse_byte (drop 2 line) * 2))
    && is_valid_hex (drop 2 line) ((parse_byte (drop 2 line) + 1) * 2)
    && low_bits (sum_bytes (parse_byte (drop 2 line) + 1) (drop 2 line)) 8 == 0xFF

-- The answer is whether the record ends the load.
unfoldable pub srec_record : ℕ → ℕ → ℕ → List ℕ → M Bool
srec_record type count addr_len line =
    let addr = parse_address addr_len (drop 4 line) 0 in
    if type == b'1' || type == b'2' || type == b'3'
    then (do store_digits (count - addr_len - 1) (drop (4 + 2 * addr_len) line) addr; pure false)
    else if type == b'7' || type == b'8' || type == b'9'
    then (do m68k_set_pc addr; pure true)
    else pure false

unfoldable pub srec_line : List ℕ → M Bool
srec_line line =
    let type = get_or line 1 0 in
    let count = parse_byte (drop 2 line) in
    if srec_is_whole line
    then elim (srec_addr_len type) [
      | none ↦ pure false
      | some addr_len ↦
          if ltb count (addr_len + 1) then pure false else srec_record type count addr_len line
    ]
    else pure false

-- What the loader sees of the next line of a buffer of the size.
unfoldable pub srec_chomp : List ℕ → List ℕ
srec_chomp buffer = strip_last b'\r' (strip_last b'\n' (c_string buffer))

-- `while (fgets(line, 512, f))`, on fuel.
unfoldable pub srec_lines : ℕ → List ℕ → M ⊤
srec_lines fuel [] = pure tt
srec_lines zero (c ∷ text) = exhausted
srec_lines (suc fuel) (c ∷ text) =
    let (buffer, rest) = fgets 512 (c ∷ text) in
    let more = srec_lines fuel rest in
    (do ended ← srec_line (srec_chomp buffer); if ended then pure tt else more)

-- Every line has a character, so the length of the file is enough fuel.
unfoldable pub m68k_load_srec : Option (List ℕ) → M Bool
m68k_load_srec none = pure false
m68k_load_srec (some file) = do srec_lines (length file) file; pure true
