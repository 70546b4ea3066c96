-- ===== src/Loader/Ihex.antt =====
-- `m68k_load_ihex`.
use rocket.Base.{
  ℕ, zero, suc, ◌+◌, ◌*◌, Bool, true, false, not, ◌&&◌, ◌||◌, List, [], ◌∷◌, length, get_or, drop,
  Option, none, some, ⊤, ◌==◌, ltb, if◌then◌else◌, bit_or, shl, low_bits, u32, add32,
}
use rocket.Cpu.{exhausted, M, pure, ◌>>=◌, ◌>>◌}
use rocket.Exception.{m68k_set_pc}
use rocket.Loader.Text.{fgets, c_string, is_valid_hex, parse_byte, sum_bytes, store_digits}

-- `while (len > 0 && (line[len - 1] == '\n' || line[len - 1] == '\r')) line[--len] = 0`.
unfoldable pub strip_ends : List ℕ → List ℕ
strip_ends [] = []
strip_ends (c ∷ text) =
    let rest = strip_ends text in
    elim rest [ [] ↦ if c == b'\n' || c == b'\r' then [] else c ∷ [] | x ∷ xs ↦ c ∷ x ∷ xs ]

-- Two bytes of the data, most significant first.
unfoldable pub parse_word : List ℕ → ℕ
parse_word ptr = bit_or (shl (parse_byte ptr) 8) (parse_byte (drop 2 ptr))

unfoldable pub parse_long : List ℕ → ℕ
parse_long ptr =
    bit_or
      (bit_or (bit_or (shl (parse_byte ptr) 24) (shl (parse_byte (drop 2 ptr)) 16))
        (shl (parse_byte (drop 4 ptr)) 8))
      (parse_byte (drop 6 ptr))

-- The tests that a record has to pass before its type is looked at.
unfoldable pub ihex_is_whole : List ℕ → Bool
ihex_is_whole line =
    not (length line == 0)
    && get_or line 0 0 == b':'
    && not (ltb (length line) 11)
    && is_valid_hex (drop 1 line) 8
    && not (ltb (length line) (11 + parse_byte (drop 1 line) * 2))
    && is_valid_hex (drop 1 line) ((parse_byte (drop 1 line) + 5) * 2)
    && low_bits (sum_bytes (parse_byte (drop 1 line) + 5) (drop 1 line)) 8 == 0

-- `switch (type)`: the base for the next records, or none at the end of the file.
unfoldable pub ihex_record : ℕ → ℕ → ℕ → ℕ → List ℕ → M (Option ℕ)
ihex_record type count offset base digits =
    if type == 0x00
    then (do store_digits count digits (add32 base offset); pure (some base))
    else if type == 0x01
    then pure none
    else if type == 0x02 && count == 2
    then pure (some (shl (parse_word digits) 4))
    else if type == 0x04 && count == 2
    then pure (some (u32 (shl (parse_word digits) 16)))
    else if type == 0x03 && count == 4
    then (do
      m68k_set_pc (add32 (shl (parse_word digits) 4) (parse_word (drop 4 digits)))
      pure (some base))
    else if type == 0x05 && count == 4
    then (do m68k_set_pc (parse_long digits); pure (some base))
    else pure (some base)

unfoldable pub ihex_line : ℕ → List ℕ → M (Option ℕ)
ihex_line base line =
    if ihex_is_whole line
    then ihex_record (parse_byte (drop 7 line)) (parse_byte (drop 1 line))
        (parse_word (drop 3 line)) base (drop 9 line)
    else pure (some base)

-- `while (fgets(line, 600, f))`, on fuel.
unfoldable pub ihex_lines : ℕ → ℕ → List ℕ → M ⊤
ihex_lines fuel base [] = pure tt
ihex_lines zero base (c ∷ text) = exhausted
ihex_lines (suc fuel) base (c ∷ text) =
    let (buffer, rest) = fgets 600 (c ∷ text) in
    let more = λ (next : ℕ). ihex_lines fuel next rest in
    (do
      next ← ihex_line base (strip_ends (c_string buffer))
      elim next [ none ↦ pure tt | some b ↦ more b ])

unfoldable pub m68k_load_ihex : Option (List ℕ) → M Bool
m68k_load_ihex none = pure false
m68k_load_ihex (some file) = do ihex_lines (length file) 0 file; pure true
