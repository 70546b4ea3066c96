-- ===== src/Bus/Memory.antt =====
-- Accesses to the bound memory, without callbacks (src/m68k/m68k.c: `m68k_read_*`,
-- `m68k_write_*`): the equations of the branch that succeeds, and what a write leaves to read.
use rocket.Base.{
  ℕ, ◌+◌, ◌*◌, ◌%◌, ◌^◌, ◌<◌, ◌≤◌, ◌≡◌, ◌∙◌, ap, refl, ◌⊎◌, ⊤, arith, low_bits, shl, shr, u8, u16,
  bit_or, bit_or_fields, update, add32,
}
use rocket.Cpu.{
  M68kCpu, M68kSize, size_byte, size_word, size_long, size_bytes, size_bits, no_host, ok, M,
}
use rocket.Bus.Fault.{mask_address_24, set_fc, apply_wait_bus}
use rocket.Bus.Read.{memory_word, memory_long, read_8, read_16, read_32, read_size, fetch}
use rocket.Bus.Write.{store_word, store_long, write_8, write_16, write_32, write_size}

-- The bytes of an operand are below the limit, and a word or a long starts at an even address.
abbrev pub Accessible : M68kSize → ℕ → ℕ → Type 0
Accessible size_byte a limit = mask_address_24 a < limit
Accessible size_word a limit = (mask_address_24 a + 1 < limit) × (a % 2 ≡ 0)
Accessible size_long a limit = (mask_address_24 a + 3 < limit) × (a % 2 ≡ 0)

-- The operand in memory, most significant byte first.
abbrev pub memory_value : M68kSize → M68kCpu → ℕ → ℕ
memory_value size_byte c a = c.memory a
memory_value size_word c a = memory_word c a
memory_value size_long c a = memory_long c a

abbrev pub stored : M68kSize → ℕ → ℕ → (ℕ → ℕ) → ℕ → ℕ
stored size_byte a v mem = update mem a (u8 v)
stored size_word a v mem = store_word a v mem
stored size_long a v mem = store_long a v mem

store_word-cut : (a v : ℕ) (mem : ℕ → ℕ) → store_word a (u16 v) mem ≡ store_word a v mem
unfolding store_word
store_word-cut a v mem =
    let high : low_bits (shr (u16 v) 8) 8 ≡ low_bits (shr v 8) 8 = omega arith in
    let low : low_bits (u16 v) 8 ≡ low_bits v 8 = omega arith in
    ap (λ (t : ℕ). update (update mem a t) (a + 1) (low_bits (u16 v) 8)) high
    ∙ ap (λ (t : ℕ). update (update mem a (low_bits (shr v 8) 8)) (a + 1) t) low

module _ (exc : ℕ → M ⊤) where
  pub write_16-memory :
      (a v : ℕ) (c : M68kCpu)
      → Accessible size_word a c.memory_size
      → write_16 exc a v no_host c
        ≡ (ok tt, record c { memory = store_word (mask_address_24 a) v c.memory })
  unfolding write_16 set_fc apply_wait_bus
  write_16-memory a v c h = ground arith

  pub fetch-memory :
      (c : M68kCpu)
      → Accessible size_word c.pc c.memory_size
      → fetch exc no_host c
        ≡ (ok (memory_word c (mask_address_24 c.pc)), record c { pc = add32 c.pc 2 })
  unfolding fetch set_fc apply_wait_bus
  fetch-memory c h = ground arith

  pub read_size-memory :
      (size : M68kSize) (a : ℕ) (c : M68kCpu)
      → Accessible size a c.memory_size
      → read_size exc a size no_host c ≡ (ok (memory_value size c (mask_address_24 a)), c)
  unfolding read_size read_8 read_16 read_32 set_fc apply_wait_bus
  read_size-memory size_byte a c h = ground arith
  read_size-memory size_word a c h = ground arith
  read_size-memory size_long a c h = ground arith

  pub write_size-memory :
      (size : M68kSize) (a v : ℕ) (c : M68kCpu)
      → Accessible size a c.memory_size
      → write_size exc a v size no_host c
        ≡ (ok tt, record c { memory = stored size (mask_address_24 a) v c.memory })
  unfolding write_size write_8 write_16 write_32 set_fc apply_wait_bus
  write_size-memory size_byte a v c h = ground arith
  write_size-memory size_word a v c h =
      write_16-memory a (u16 v) c h
      ∙ ap (λ (m : ℕ → ℕ). (ok tt, record c { memory = m }))
          (store_word-cut (mask_address_24 a) v c.memory)
  write_size-memory size_long a v c h = ground arith

-- Four bytes, and two, joined by shifts and `|`.
pub join_long :
    (b3 b2 b1 b0 : ℕ)
    → b2 < 2 ^ 8
    → b1 < 2 ^ 8
    → b0 < 2 ^ 8
    → bit_or (bit_or (bit_or (shl b3 24) (shl b2 16)) (shl b1 8)) b0
      ≡ b3 * 2 ^ 24 + b2 * 2 ^ 16 + b1 * 2 ^ 8 + b0
join_long b3 b2 b1 b0 h2 h1 h0 =
    let s3 : bit_or (shl b3 24) (shl b2 16) ≡ (b3 * 2 ^ 8 + b2) * 2 ^ 16 =
      bit_or_fields 24 b3 (shl b2 16) (omega arith) ∙ omega arith in
    let s2 : bit_or ((b3 * 2 ^ 8 + b2) * 2 ^ 16) (shl b1 8)
        ≡ (b3 * 2 ^ 16 + b2 * 2 ^ 8 + b1) * 2 ^ 8 =
      bit_or_fields 16 (b3 * 2 ^ 8 + b2) (shl b1 8) (omega arith) ∙ omega arith in
    let s1 : bit_or ((b3 * 2 ^ 16 + b2 * 2 ^ 8 + b1) * 2 ^ 8) b0
        ≡ b3 * 2 ^ 24 + b2 * 2 ^ 16 + b1 * 2 ^ 8 + b0 =
      bit_or_fields 8 (b3 * 2 ^ 16 + b2 * 2 ^ 8 + b1) b0 h0 ∙ omega arith in
    ap (λ (t : ℕ). bit_or (bit_or t (shl b1 8)) b0) s3 ∙ ap (λ (t : ℕ). bit_or t b0) s2 ∙ s1

pub memory_value-stored :
    (size : M68kSize) (a v : ℕ) (c : M68kCpu)
    → memory_value size (record c { memory = stored size a v c.memory }) a ≡ v % 2 ^ size_bits size
unfolding memory_word memory_long store_word store_long
memory_value-stored size_byte a v c = ground arith
memory_value-stored size_word a v c =
    let j = bit_or_fields 8 (low_bits (shr v 8) 8) (low_bits v 8) (omega arith) in ground (arith, j)
memory_value-stored size_long a v c =
    let j =
      join_long (low_bits (shr v 24) 8) (low_bits (shr v 16) 8) (low_bits (shr v 8) 8)
        (low_bits v 8) (omega arith) (omega arith) (omega arith) in
    ground (arith, j)

pub stored-elsewhere :
    (size : M68kSize) (a v i : ℕ) (mem : ℕ → ℕ)
    → (i < a) ⊎ (a + size_bytes size ≤ i)
    → stored size a v mem i ≡ mem i
unfolding store_word store_long
stored-elsewhere size_byte a v i mem h = ground arith
stored-elsewhere size_word a v i mem h = ground arith
stored-elsewhere size_long a v i mem h = ground arith

-- For every size, without callbacks, and with the operand inside the memory at an even address
-- where the size asks for one: a write returns and changes no byte outside the operand, and the
-- read that follows returns the written value, cut to the size, and changes nothing.
pub write_size-read_size :
    (exc : ℕ → M ⊤) (size : M68kSize) (a v : ℕ) (c : M68kCpu)
    → Accessible size a c.memory_size
    → let c' = (write_size exc a v size no_host c).1 in
      let b = mask_address_24 a in
      ((write_size exc a v size no_host c).0 ≡ ok tt)
      × (read_size exc a size no_host c' ≡ (ok (v % 2 ^ size_bits size), c'))
      × ((i : ℕ) → (i < b) ⊎ (b + size_bytes size ≤ i) → c'.memory i ≡ c.memory i)
write_size-read_size exc size a v c h =
    let b = mask_address_24 a in
    let w = write_size-memory exc size a v c h in
    let c' = record c { memory = stored size b v c.memory } in
    let r : read_size exc a size no_host c' ≡ (ok (v % 2 ^ size_bits size), c') =
      read_size-memory exc size a c' h
      ∙ ap (λ (t : ℕ). (ok t, c')) (memory_value-stored size b v c) in
    rw w (refl, r, λ i out. stored-elsewhere size b v i c.memory out)
