-- ===== src/Loader/Printed.antt =====
-- A printed S-record and what loading it stores (src/loader.c: `m68k_load_srec`).
use mathlib.Core.List.{append-nil}
use rocket.Base.{
  ℕ, suc, ◌+◌, ◌-◌, ◌*◌, ◌%◌, ◌^◌, ◌<◌, ◌≤◌, ◌≡◌, ◌∙◌, refl, ap, true, false, ◌||◌, List, [], ◌∷◌,
  ◌++◌, some, length, length-append, arith, ◌==◌, ltb,
}
use rocket.Cpu.{M68kCpu, Host, ok}
use rocket.Loader.Text.{is_valid_hex, parse_byte, sum_bytes}
use rocket.Loader.Srec.{
  srec_addr_len, parse_address, srec_is_whole, srec_record, srec_line, srec_lines,
}
use rocket.Loader.Copy.{loaded, copied, store_file-copied}
use rocket.Loader.Buffer.{Plain, put_bytes-Plain, srec_chomp-line}
use rocket.Loader.Digits.{
  put_bytes, Bytes, sum, big_endian, parse_byte-put, is_valid_hex-put, sum_bytes-put,
  length-put_bytes, put_bytes-append, parse_address-put, store_digits-store_file, Bytes-append,
  sum-append, drop-put_bytes,
}

srec_is_whole-put :
    (type count : ℕ) (tail : List ℕ)
    → Bytes (count ∷ tail)
    → length tail ≡ count
    → sum (count ∷ tail) % 2 ^ 8 ≡ 255
    → srec_is_whole (b'S' ∷ type ∷ put_bytes (count ∷ tail)) ≡ true
unfolding srec_is_whole
srec_is_whole-put type count tail bytes e total =
    let ptr = put_bytes (count ∷ tail) in
    let end = append-nil ptr in
    let size : count + 1 ≡ suc (length tail) = omega arith in
    let read : parse_byte ptr ≡ count = rw end at (parse_byte-put count tail [] bytes.0) in
    let head : is_valid_hex ptr 2 ≡ true =
      is_valid_hex-put (count ∷ []) (put_bytes tail) (bytes.0, tt) in
    let valid : is_valid_hex ptr ((count + 1) * 2) ≡ true =
      rw size (rw end at (is_valid_hex-put (count ∷ tail) [] bytes)) in
    let summed : sum_bytes (count + 1) ptr ≡ sum (count ∷ tail) =
      rw size (rw end at (sum_bytes-put (count ∷ tail) [] bytes)) in
    let long = length-put_bytes (count ∷ tail) in
    rw (read, head, valid, summed) (ground (arith, long, total))

-- The types of data records, with the length of their addresses.
pub data DataType (type len : ℕ) : Type 0 where
  s1 : type ≡ b'1' → len ≡ 2 → DataType type len
  s2 : type ≡ b'2' → len ≡ 3 → DataType type len
  s3 : type ≡ b'3' → len ≡ 4 → DataType type len

abbrev pub checksum : List ℕ → ℕ
checksum bs = 255 - sum bs % 2 ^ 8

-- S, the type, and in digits the count, the address, the data and the checksum.
abbrev pub printed : ℕ → List ℕ → List ℕ → List ℕ
printed type place bytes =
    let count = length place + length bytes + 1 in
    b'S' ∷ type ∷ put_bytes (count ∷ place ++ (bytes ++ checksum (count ∷ place ++ bytes) ∷ []))

DataType-decoded :
    (type len : ℕ)
    → DataType type len
    → ((type == b'1' || type == b'2' || type == b'3') ≡ true) × (srec_addr_len type ≡ some len)
unfolding srec_addr_len
DataType-decoded type len (s1 t l) = (ground arith, ground arith)
DataType-decoded type len (s2 t l) = (ground arith, ground arith)
DataType-decoded type len (s3 t l) = (ground arith, ground arith)

type-Plain : (type len : ℕ) → DataType type len → Plain (type ∷ [])
type-Plain type len (s1 t l) = (ground arith, ground arith, ground arith, tt)
type-Plain type len (s2 t l) = (ground arith, ground arith, ground arith, tt)
type-Plain type len (s3 t l) = (ground arith, ground arith, ground arith, tt)

module _ (type : ℕ) (place bytes : List ℕ) (kind : DataType type (length place))
    (place_bytes : Bytes place) (data_bytes : Bytes bytes)
    (fits : length place + length bytes < 255) where
  printed-whole : srec_is_whole (printed type place bytes) ≡ true
  printed-whole =
      let count = length place + length bytes + 1 in
      let check = checksum (count ∷ place ++ bytes) in
      let tail = place ++ (bytes ++ check ∷ []) in
      let end : Bytes (check ∷ []) = (omega arith, tt) in
      srec_is_whole-put type count tail
        (omega arith, Bytes-append place _ place_bytes (Bytes-append bytes _ data_bytes end))
        (omega (arith, length-append place (bytes ++ check ∷ []), length-append bytes (check ∷ [])))
        (omega (
          arith,
          sum-append place (bytes ++ check ∷ []),
          sum-append bytes (check ∷ []),
          sum-append place bytes,
        ))

  printed-digits :
      (chk : ℕ)
      → put_bytes (place ++ (bytes ++ chk ∷ []))
        ≡ put_bytes place ++ (put_bytes bytes ++ put_bytes (chk ∷ []))
  printed-digits chk =
      put_bytes-append place (bytes ++ chk ∷ [])
      ∙ ap (λ (t : List ℕ). put_bytes place ++ t) (put_bytes-append bytes (chk ∷ []))

  -- The line of the record, once it is in the buffer.
  srec_line-printed :
      (h : Host) (c : M68kCpu)
      → c.memory_size < 2 ^ 24
      → big_endian 0 place ≤ c.memory_size
      → let a = big_endian 0 place in
        let n = loaded bytes a c.memory_size in
        (memory : ℕ → ℕ) × (srec_line (printed type place bytes) h c
          ≡ (ok false, record c { memory = memory }))
        × ((i : ℕ) → memory i ≡ copied bytes a n c.memory i)
  unfolding srec_line srec_record
  srec_line-printed h c small le =
      let count = length place + length bytes + 1 in
      let check = checksum (count ∷ place ++ bytes) in
      let digits = put_bytes bytes ++ put_bytes (check ∷ []) in
      let (stores, known) = DataType-decoded type (length place) kind in
      let read : parse_byte (put_bytes (count ∷ place ++ (bytes ++ check ∷ []))) ≡ count =
        rw (append-nil (put_bytes (count ∷ place ++ (bytes ++ check ∷ [])))) at
          (parse_byte-put count (place ++ (bytes ++ check ∷ [])) [] (omega arith)) in
      let enough : ltb count (length place + 1) ≡ false = ground arith in
      let left : count - length place - 1 ≡ length bytes = omega arith in
      let skip : 4 + 2 * length place ≡ suc (suc (suc (suc (2 * length place)))) = omega arith in
      let address : parse_address (length place) (put_bytes place ++ digits) 0
          ≡ big_endian 0 place =
        parse_address-put place digits 0 place_bytes (omega arith) in
      let (memory, ends, same) = store_file-copied bytes (big_endian 0 place) h c small le in
      (
        memory,
        rw
            (
              printed-whole,
              known,
              read,
              enough,
              stores,
              left,
              skip,
              printed-digits check,
              address,
              drop-put_bytes place digits,
              store_digits-store_file bytes (put_bytes (check ∷ [])) (big_endian 0 place) h c
                  data_bytes,
              ends,
            )
            refl,
        same,
      )

printed-Plain :
    (type : ℕ) (place bytes : List ℕ)
    → DataType type (length place)
    → Bytes place
    → Bytes bytes
    → length place + length bytes < 255
    → Plain (printed type place bytes)
printed-Plain type place bytes kind place_bytes data_bytes fits =
    let count = length place + length bytes + 1 in
    let check = checksum (count ∷ place ++ bytes) in
    let end : Bytes (check ∷ []) = (omega arith, tt) in
    let (t0, t1, t2, _) = type-Plain type (length place) kind in
    let whole : Bytes (count ∷ place ++ (bytes ++ check ∷ [])) =
      (omega arith, Bytes-append place _ place_bytes (Bytes-append bytes _ data_bytes end)) in
    (refl, refl, refl, (t0, t1, t2, put_bytes-Plain (count ∷ place ++ (bytes ++ check ∷ [])) whole))

length-printed :
    (type : ℕ) (place bytes : List ℕ)
    → length (printed type place bytes) ≡ 6 + 2 * (length place + length bytes)
length-printed type place bytes =
    let count = length place + length bytes + 1 in
    let check = checksum (count ∷ place ++ bytes) in
    omega (
      arith,
      length-put_bytes (count ∷ place ++ (bytes ++ check ∷ [])),
      length-append place (bytes ++ check ∷ []),
      length-append bytes (check ∷ []),
    )

-- Where a file goes on with a data record of one of the three types, of any address and data of together
-- fewer than 253 bytes, printed with its count and checksum and ended by a newline, under any host:
-- the loop of the loader reads the whole record through its buffer of 512 characters, accepts it,
-- and goes on with what follows the newline. With less than 2^24 bytes of memory and the address
-- within them, the data then stands in memory from the address on, as far as it ends at the end of
-- the memory, and nothing else has changed.
pub srec_lines-printed :
    (fuel type : ℕ) (place bytes text : List ℕ) (h : Host) (c : M68kCpu)
    → DataType type (length place)
    → Bytes place
    → Bytes bytes
    → length place + length bytes < 253
    → c.memory_size < 2 ^ 24
    → big_endian 0 place ≤ c.memory_size
    → let a = big_endian 0 place in
      let n = loaded bytes a c.memory_size in
      (memory : ℕ → ℕ) × (srec_lines (suc fuel) (printed type place bytes ++ b'\n' ∷ text) h c
        ≡ srec_lines fuel text h (record c { memory = memory }))
      × ((i : ℕ) → memory i ≡ copied bytes a n c.memory i)
unfolding srec_lines
srec_lines-printed fuel type place bytes text h c kind place_bytes data_bytes fits small le =
    let line = printed type place bytes in
    let (seen, rest) =
      srec_chomp-line line text
        (printed-Plain type place bytes kind place_bytes data_bytes (omega arith))
        (omega (arith, length-printed type place bytes)) in
    let (memory, ends, same) =
      srec_line-printed type place bytes kind place_bytes data_bytes (omega arith) h c small le in
    (memory, rw (seen, rest, ends) refl, same)
