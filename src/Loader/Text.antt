-- ===== src/Loader/Text.antt =====
-- Lines, hexadecimal digits, and stores to the bound memory.
use rocket.Base.{
  ℕ, zero, suc, ◌+◌, ◌-◌, Bool, true, false, ◌&&◌, ◌||◌, List, [], ◌∷◌, get_or, drop, ⊤, ◌==◌, ltb,
  leb, if◌then◌else◌, bit_or, shl, u8, add32, update,
}
use rocket.Cpu.{M, pure, gets, modify, ◌>>=◌, ◌>>◌}
use rocket.Bus.{mask_address_24}

-- `fgets`: the characters up to a newline, `limit - 1` at most, and the rest of the file.
unfoldable pub fgets : ℕ → List ℕ → List ℕ × List ℕ
fgets zero text = ([], text)
fgets (suc zero) text = ([], text)
fgets (suc (suc limit)) [] = ([], [])
fgets (suc (suc limit)) (c ∷ text) =
    let more = fgets (suc limit) text in if c == b'\n' then (c ∷ [], text) else (c ∷ more.0, more.1)

-- The string that a buffer holds: up to the first null character, as `strlen` sees it.
unfoldable pub c_string : List ℕ → List ℕ
c_string [] = []
c_string (c ∷ text) = let rest = c_string text in if c == 0 then [] else c ∷ rest

-- `if (len > 0 && line[len - 1] == c) line[--len] = 0`.
unfoldable pub strip_last : ℕ → List ℕ → List ℕ
strip_last c [] = []
strip_last c (x ∷ []) = if x == c then [] else x ∷ []
strip_last c (x ∷ y ∷ text) = x ∷ strip_last c (y ∷ text)

unfoldable pub hex_val : ℕ → ℕ
hex_val c =
    if leb b'0' c && leb c b'9'
    then c - b'0'
    else if leb b'A' c && leb c b'F'
    then c - b'A' + 10
    else if leb b'a' c && leb c b'f'
    then c - b'a' + 10
    else 0

-- `isxdigit`.
unfoldable pub is_hex_digit : ℕ → Bool
is_hex_digit c = leb b'0' c && leb c b'9' || leb b'A' c && leb c b'F' || leb b'a' c && leb c b'f'

unfoldable pub is_valid_hex : List ℕ → ℕ → Bool
is_valid_hex ptr zero = true
is_valid_hex ptr (suc digits) = is_hex_digit (get_or ptr 0 0) && is_valid_hex (drop 1 ptr) digits

unfoldable pub parse_byte : List ℕ → ℕ
parse_byte ptr = u8 (bit_or (shl (hex_val (get_or ptr 0 0)) 4) (hex_val (get_or ptr 1 0)))

-- `for (i = 0; i < n; i++) sum += parse_byte(&ptr[i * 2])`.
unfoldable pub sum_bytes : ℕ → List ℕ → ℕ
sum_bytes zero ptr = 0
sum_bytes (suc n) ptr = parse_byte ptr + sum_bytes n (drop 2 ptr)

unfoldable pub loader_store : ℕ → ℕ → M Bool
loader_store address value = do
  let a = mask_address_24 address
  c ← gets (λ c. c)
  if ltb a c.memory_size
      then (do modify (λ c. record c { memory = update c.memory a value }); pure true)
      else pure false

-- The bytes of a record, up to the first that is outside the memory.
unfoldable pub store_digits : ℕ → List ℕ → ℕ → M ⊤
store_digits zero ptr address = pure tt
store_digits (suc n) ptr address = do
  let rest = store_digits n (drop 2 ptr) (add32 address 1)
  stored ← loader_store address (parse_byte ptr)
  if stored then rest else pure tt
