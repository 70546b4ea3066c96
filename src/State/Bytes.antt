-- ===== src/State/Bytes.antt =====
-- Big-endian numbers in a save state, its tags and its header.
use rocket.Base.{ℕ, List, [], ◌∷◌, get_or, bit_or, shl, shr, u8}

unfoldable pub state_put_16 : ℕ → List ℕ
state_put_16 v = u8 (shr v 8) ∷ u8 v ∷ []

unfoldable pub state_put_32 : ℕ → List ℕ
state_put_32 v = u8 (shr v 24) ∷ u8 (shr v 16) ∷ u8 (shr v 8) ∷ u8 v ∷ []

unfoldable pub state_get_16 : List ℕ → ℕ
state_get_16 p = bit_or (shl (get_or p 0 0) 8) (get_or p 1 0)

unfoldable pub state_get_32 : List ℕ → ℕ
state_get_32 p =
    bit_or (bit_or (bit_or (shl (get_or p 0 0) 24) (shl (get_or p 1 0) 16)) (shl (get_or p 2 0) 8))
      (get_or p 3 0)

-- The two bytes that precede a field.
abbrev pub state_field : ℕ → ℕ → List ℕ
state_field tag len = tag ∷ len ∷ []

abbrev pub state_version : ℕ
state_version = 1

-- `M68K_TAG_*`.
abbrev pub tag_dregs : ℕ
tag_dregs = 1

abbrev pub tag_aregs : ℕ
tag_aregs = 2

abbrev pub tag_pc : ℕ
tag_pc = 3

abbrev pub tag_sr : ℕ
tag_sr = 4

abbrev pub tag_usp : ℕ
tag_usp = 5

abbrev pub tag_ssp : ℕ
tag_ssp = 6

abbrev pub tag_vbr : ℕ
tag_vbr = 7

abbrev pub tag_sfc : ℕ
tag_sfc = 8

abbrev pub tag_dfc : ℕ
tag_dfc = 9

abbrev pub tag_flags : ℕ
tag_flags = 10

abbrev pub tag_decode : ℕ
tag_decode = 11

abbrev pub tag_cycles : ℕ
tag_cycles = 12

abbrev pub tag_model : ℕ
tag_model = 13
