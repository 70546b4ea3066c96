-- ===== src/Loader/Digits.antt =====
-- Bytes printed in hexadecimal, and what the parsers of src/loader.c make of them.
use rocket.Base.{
  ℕ, suc, ◌+◌, ◌*◌, ◌/◌, ◌%◌, ◌^◌, ◌<◌, ◌≤◌, ◌≡◌, ◌∙◌, refl, ap, inl, inr, true, Bool-cases, List,
  [], ◌∷◌, ◌++◌, length, drop, arith, ltb, if◌then◌else◌, shl, u32, bit_or, bit_or_fields, add32,
  update,
}
use rocket.Cpu.{M68kCpu, Host, pure, ◌>>=◌}
use rocket.Bus.{mask_address_24}
use rocket.Loader.Text.{
  hex_val, is_hex_digit, is_valid_hex, parse_byte, sum_bytes, loader_store, store_digits,
}
use rocket.Loader.Binary.{store_file}
use rocket.Loader.Srec.{parse_address}

-- Upper-case hexadecimal.
abbrev pub hex_digit : ℕ → ℕ
hex_digit n = if ltb n 10 then 48 + n else 55 + n

abbrev pub put_bytes : List ℕ → List ℕ
put_bytes [] = []
put_bytes (b ∷ bs) = hex_digit (b / 16) ∷ hex_digit (b % 16) ∷ put_bytes bs

abbrev pub Bytes : List ℕ → Type 0
Bytes [] = Unit
Bytes (b ∷ bs) = (b < 2 ^ 8) × Bytes bs

abbrev pub sum : List ℕ → ℕ
sum [] = 0
sum (b ∷ bs) = b + sum bs

-- The number of a list of bytes, most significant first.
abbrev pub big_endian : ℕ → List ℕ → ℕ
big_endian acc [] = acc
big_endian acc (b ∷ bs) = big_endian (acc * 2 ^ 8 + b) bs

pub hex_digit-is_hex_digit : (n : ℕ) → n < 16 → is_hex_digit (hex_digit n) ≡ true
unfolding is_hex_digit
hex_digit-is_hex_digit n h = ground arith

pub hex_val-hex_digit : (n : ℕ) → n < 16 → hex_val (hex_digit n) ≡ n
unfolding hex_val
hex_val-hex_digit n h = ground arith

pub parse_byte-put :
    (b : ℕ) (bs rest : List ℕ) → b < 2 ^ 8 → parse_byte (put_bytes (b ∷ bs) ++ rest) ≡ b
unfolding parse_byte
parse_byte-put b bs rest h =
    let high = hex_val-hex_digit (b / 16) (omega arith) in
    let low = hex_val-hex_digit (b % 16) (omega arith) in
    rw (high, low, bit_or_fields 4 (b / 16) (b % 16) (omega arith)) (omega arith)

pub is_valid_hex-put :
    (bs rest : List ℕ) → Bytes bs → is_valid_hex (put_bytes bs ++ rest) (length bs * 2) ≡ true
unfolding is_valid_hex
is_valid_hex-put [] rest h = refl
is_valid_hex-put (b ∷ bs) rest h =
    let two : suc (length bs) * 2 ≡ suc (suc (length bs * 2)) = omega arith in
    let high = hex_digit-is_hex_digit (b / 16) (omega arith) in
    let low = hex_digit-is_hex_digit (b % 16) (omega arith) in
    rw (two, high, low) (is_valid_hex-put bs rest h.1)

pub sum_bytes-put :
    (bs rest : List ℕ) → Bytes bs → sum_bytes (length bs) (put_bytes bs ++ rest) ≡ sum bs
unfolding sum_bytes
sum_bytes-put [] rest h = refl
sum_bytes-put (b ∷ bs) rest h = rw (parse_byte-put b bs rest h.0, sum_bytes-put bs rest h.1) refl

pub length-put_bytes : (bs : List ℕ) → length (put_bytes bs) ≡ length bs * 2
length-put_bytes [] = omega arith
length-put_bytes (b ∷ bs) = omega (arith, length-put_bytes bs)

pub put_bytes-append : (xs ys : List ℕ) → put_bytes (xs ++ ys) ≡ put_bytes xs ++ put_bytes ys
put_bytes-append [] ys = refl
put_bytes-append (x ∷ xs) ys =
    ap (λ (t : List ℕ). hex_digit (x / 16) ∷ hex_digit (x % 16) ∷ t) (put_bytes-append xs ys)

pub big_endian-le : (bs : List ℕ) (acc : ℕ) → acc ≤ big_endian acc bs
big_endian-le [] acc = omega arith
big_endian-le (b ∷ bs) acc = omega (arith, big_endian-le bs (acc * 2 ^ 8 + b))

pub parse_address-put :
    (bs rest : List ℕ) (acc : ℕ)
    → Bytes bs
    → big_endian acc bs < 2 ^ 32
    → parse_address (length bs) (put_bytes bs ++ rest) acc ≡ big_endian acc bs
unfolding parse_address
parse_address-put [] rest acc h fits = refl
parse_address-put (b ∷ bs) rest acc h fits =
    let small : acc * 2 ^ 8 + b < 2 ^ 32 =
      omega (arith, fits, big_endian-le bs (acc * 2 ^ 8 + b)) in
    let next : bit_or (u32 (shl acc 8)) (parse_byte (put_bytes (b ∷ bs) ++ rest))
        ≡ acc * 2 ^ 8 + b =
      ap (λ (t : ℕ). bit_or (u32 (shl acc 8)) t) (parse_byte-put b bs rest h.0)
      ∙ ap (λ (t : ℕ). bit_or t b) (omega arith)
      ∙ bit_or_fields 8 acc b h.0 in
    ap (λ (t : ℕ). parse_address (length bs) (put_bytes bs ++ rest) t) next
    ∙ parse_address-put bs rest (acc * 2 ^ 8 + b) h.1 fits

-- The digits are stored as the file of their bytes is.
pub store_digits-store_file :
    (bs rest : List ℕ) (address : ℕ) (h : Host) (c : M68kCpu)
    → Bytes bs
    → store_digits (length bs) (put_bytes bs ++ rest) address h c
      ≡ (store_file bs address >>= λ end. pure tt) h c
unfolding store_digits store_file loader_store
store_digits-store_file [] rest address h c d = refl
store_digits-store_file (b ∷ bs) rest address h c d =
    let a = mask_address_24 address in
    let read = parse_byte-put b bs rest d.0 in
    elim (Bool-cases (ltb a c.memory_size)) [
      | inl inside ↦
          let c1 = record c { memory = update c.memory a b } in
          rw (read, inside) (store_digits-store_file bs rest (add32 address 1) h c1 d.1)
      | inr outside ↦ rw (read, outside) refl
    ]

pub Bytes-append : (xs ys : List ℕ) → Bytes xs → Bytes ys → Bytes (xs ++ ys)
Bytes-append [] ys hx hy = hy
Bytes-append (x ∷ xs) ys hx hy = (hx.0, Bytes-append xs ys hx.1 hy)

pub sum-append : (xs ys : List ℕ) → sum (xs ++ ys) ≡ sum xs + sum ys
sum-append [] ys = omega arith
sum-append (x ∷ xs) ys = omega (arith, sum-append xs ys)

pub drop-put_bytes : (bs rest : List ℕ) → drop (2 * length bs) (put_bytes bs ++ rest) ≡ rest
drop-put_bytes [] rest = refl
drop-put_bytes (b ∷ bs) rest =
    let two : 2 * suc (length bs) ≡ suc (suc (2 * length bs)) = omega arith in
    rw two (drop-put_bytes bs rest)
