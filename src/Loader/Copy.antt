-- ===== src/Loader/Copy.antt =====
-- A binary file in memory (src/loader.c: `m68k_load_bin`).
use rocket.Base.{
  ℕ, suc, ◌+◌, ◌-◌, ◌^◌, ◌<◌, ◌≤◌, ◌≡◌, ◌∙◌, refl, true, false, ◌&&◌, inl, inr, Bool-cases, List,
  [], ◌∷◌, some, length, get_or, arith, ◌==◌, ltb, leb, if◌then◌else◌, add32, sub32, update,
}
use rocket.Cpu.{M68kCpu, Host, ok}
use rocket.Bus.{mask_address_24}
use rocket.Loader.Text.{loader_store}
use rocket.Loader.Binary.{store_file, m68k_load_bin}

-- The bytes of a file from `address` on that end below the limit.
abbrev pub loaded : List ℕ → ℕ → ℕ → ℕ
loaded file address limit =
    if ltb (length file) (limit - address) then length file else limit - address

-- A memory over which a file has been copied.
abbrev pub copied : List ℕ → ℕ → ℕ → (ℕ → ℕ) → ℕ → ℕ
copied file address n memory i =
    if leb address i && ltb i (address + n) then get_or file (i - address) 0 else memory i

copied-cons :
    (b : ℕ) (file : List ℕ) (a n : ℕ) (memory : ℕ → ℕ) (i : ℕ)
    → copied file (suc a) n (update memory a b) i ≡ copied (b ∷ file) a (suc n) memory i
copied-cons b file a n memory i = elim (Bool-cases (ltb a i)) [
  | inl above ↦ let next : i - a ≡ suc (i - suc a) = ground arith in rw next (ground arith)
  | inr below ↦ elim (Bool-cases (i == a)) [
    | inl here ↦ let start : i - a ≡ 0 = ground arith in rw start (ground arith)
    | inr other ↦ ground arith
  ]
]

module _ (a b : ℕ) (h : Host) (c : M68kCpu) (small : c.memory_size < 2 ^ 24) where
  loader_store-inside :
      a < c.memory_size
      → loader_store a b h c ≡ (ok true, record c { memory = update c.memory a b })
  unfolding loader_store
  loader_store-inside lt =
      let masked : mask_address_24 a ≡ a = omega arith in
      let below : ltb a c.memory_size ≡ true = ground arith in rw (masked, below) refl

  loader_store-outside : a ≡ c.memory_size → loader_store a b h c ≡ (ok false, c)
  unfolding loader_store
  loader_store-outside e =
      let masked : mask_address_24 a ≡ a = omega arith in
      let above : ltb a c.memory_size ≡ false = ground arith in rw (masked, above) refl

pub store_file-copied :
    (file : List ℕ) (a : ℕ) (h : Host) (c : M68kCpu)
    → c.memory_size < 2 ^ 24
    → a ≤ c.memory_size
    → (memory : ℕ → ℕ) × (store_file file a h c
        ≡ (ok (a + loaded file a c.memory_size), record c { memory = memory }))
      × ((i : ℕ) → memory i ≡ copied file a (loaded file a c.memory_size) c.memory i)
unfolding store_file
store_file-copied [] a h c small le =
    let nothing : loaded [] a c.memory_size ≡ 0 = ground arith in
    let stays : a + 0 ≡ a = omega arith in rw nothing (c.memory, rw stays refl, λ i. ground arith)
store_file-copied (b ∷ file) a h c small le = elim (Bool-cases (ltb a c.memory_size)) [
  | inl inside ↦
      let c1 = record c { memory = update c.memory a b } in
      let stored = loader_store-inside a b h c small (ground arith) in
      let next : add32 a 1 ≡ suc a = ground arith in
      let (memory, ends, same) = store_file-copied file (suc a) h c1 small (ground arith) in
      let more : loaded (b ∷ file) a c.memory_size ≡ suc (loaded file (suc a) c.memory_size) =
        ground arith in
      let total : a + suc (loaded file (suc a) c.memory_size)
          ≡ suc a + loaded file (suc a) c.memory_size =
        omega arith in
      rw more (
        memory,
        rw (stored, next, total) ends,
        λ i. same i ∙ copied-cons b file a (loaded file (suc a) c.memory_size) c.memory i,
      )
  | inr outside ↦
      let stopped = loader_store-outside a b h c small (ground arith) in
      let nothing : loaded (b ∷ file) a c.memory_size ≡ 0 = ground arith in
      let stays : a + 0 ≡ a = omega arith in
      rw nothing (c.memory, rw (stopped, stays) refl, λ i. ground arith)
]

-- With less than 2^24 bytes of bound memory and a start address within them, under any host: loading a
-- binary file answers true and the number of bytes that it has stored, the whole file or as much of
-- it as ends at the end of the memory. These bytes stand in memory from the start address on, every
-- other byte of the memory is as before, and nothing else of the context changes.
pub m68k_load_bin-copied :
    (file : List ℕ) (address : ℕ) (h : Host) (c : M68kCpu)
    → c.memory_size < 2 ^ 24
    → address ≤ c.memory_size
    → let n = loaded file address c.memory_size in
      (memory : ℕ → ℕ) × (m68k_load_bin (some file) address h c
        ≡ (ok (true, n), record c { memory = memory }))
      × ((i : ℕ) → memory i ≡ copied file address n c.memory i)
unfolding m68k_load_bin
m68k_load_bin-copied file address h c small le =
    let n = loaded file address c.memory_size in
    let (memory, ends, same) = store_file-copied file address h c small le in
    let size : sub32 (address + n) address ≡ n = ground arith in
    (memory, rw (ends, size) refl, same)
