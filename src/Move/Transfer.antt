-- ===== src/Move/Transfer.antt =====
-- Registers that MOVEM saves to memory and loads again (src/m68k/ops_move.c: `m68k_exec_movem`).
use rocket.Base.{
  ℕ, zero, suc, ◌+◌, ◌-◌, ◌*◌, ◌%◌, ◌^◌, ◌<◌, ◌≤◌, ◌≡◌, ◌∙◌, refl, sym, ap, ℤ, pos, ◌-ℤ◌, ◌⊎◌, inl,
  inr, true, false, ◌&&◌, Bool-cases, arith, ◌==◌, ltb, leb, if◌then◌else◌, test_bit, add32, update,
  ◌||◌,
}
use rocket.Cpu.{M68kCpu, size_long, no_host, ok}
use rocket.Bus.{mask_address_24, memory_long, store_long}
use rocket.Bus.Memory.{
  Accessible, read_size-memory, write_size-memory, memory_value-stored, stored-elsewhere,
}
use rocket.Exception.{m68k_exception, m68k_read_size, m68k_write_size}
use rocket.Move.Multiple.{
  for_mask, mask_register, set_mask_register, movem_load, movem_store, movem_to_registers,
  movem_to_memory,
}

-- Memory after the registers of the mask from `i` on, in `n` rounds, have been stored from `a` on.
unfoldable pub saved : ℕ → ℕ → ℕ → ℕ → (ℕ → ℕ) → (ℕ → ℕ) → ℕ → ℕ
saved zero i mask a regs mem = mem
saved (suc n) i mask a regs mem =
    if test_bit i mask
    then saved n (suc i) mask (a + 4) regs (store_long a (regs i) mem)
    else saved n (suc i) mask a regs mem

-- Room for `n` longs at an even address below the end of the memory.
abbrev pub Room : ℕ → ℕ → ℕ → Type 0
Room n a limit = (a % 2 ≡ 0) × (a + 4 * n ≤ limit) × (limit < 2 ^ 24)

pub saved-below :
    (n i mask a : ℕ) (regs mem : ℕ → ℕ) (x : ℕ) → x < a → saved n i mask a regs mem x ≡ mem x
unfolding saved
saved-below zero i mask a regs mem x h = refl
saved-below (suc n) i mask a regs mem x h = elim (Bool-cases (test_bit i mask)) [
  | inl here ↦ rw here (
      saved-below n (suc i) mask (a + 4) regs (store_long a (regs i) mem) x (omega arith)
      ∙ stored-elsewhere size_long a (regs i) x mem (inl h))
  | inr not_here ↦ rw not_here (saved-below n (suc i) mask a regs mem x h)
]

store-round :
    (i a : ℕ) (c : M68kCpu)
    → Accessible size_long a c.memory_size
    → a + 4 < 2 ^ 24
    → (cycles : ℤ) × (movem_store size_long i a no_host c ≡ (
      ok (a + 4),
      record c { memory = store_long a (mask_register i c) c.memory; cycles_remaining = cycles },
    ))
unfolding movem_store m68k_write_size
store-round i a c h small =
    let masked : mask_address_24 a ≡ a = omega arith in
    let next : add32 a 4 ≡ a + 4 = omega arith in
    let w = write_size-memory m68k_exception size_long a (mask_register i c) c h in
    (c.cycles_remaining -ℤ pos 8, rw (w, masked, next) refl)

store-rounds :
    (n i mask a : ℕ) (c : M68kCpu)
    → Room n a c.memory_size
    → (end : ℕ) × (cycles : ℤ) × (for_mask n i mask (movem_store size_long) a no_host c ≡ (
      ok end,
      record c {
        memory = saved n i mask a (λ j. mask_register j c) c.memory;
        cycles_remaining = cycles;
      },
    ))
unfolding for_mask mask_register saved
store-rounds zero i mask a c room = (a, c.cycles_remaining, refl)
store-rounds (suc n) i mask a c (even, bound, small) = elim (Bool-cases (test_bit i mask)) [
  | inl here ↦
      let (cycles, round) = store-round i a c (omega arith, even) (omega arith) in
      let c1 = record c {
        memory = store_long a (mask_register i c) c.memory;
        cycles_remaining = cycles;
      } in
      let (end, spent, rest) =
        store-rounds n (suc i) mask (a + 4) c1 (omega arith, omega arith, small) in
      (end, spent, rw (here, round) rest)
  | inr not_here ↦
      let (end, spent, rest) = store-rounds n (suc i) mask a c (even, omega arith, small) in
      (end, spent, rw not_here rest)
]

-- The context after register `i` of a mask has been set.
abbrev with_register : ℕ → ℕ → M68kCpu → M68kCpu
with_register i v c =
    if ltb i 8
    then record c { d_regs = update c.d_regs i v }
    else record c { a_regs = update c.a_regs (i - 8) v }

mask_register-with_register :
    (i j v : ℕ) (cycles : ℤ) (c : M68kCpu)
    → mask_register j (with_register i v (record c { cycles_remaining = cycles }))
      ≡ (if j == i then v else mask_register j c)
unfolding mask_register
mask_register-with_register i j v cycles c = ground arith

with_register-rest :
    (i v : ℕ) (c : M68kCpu)
    → ((with_register i v c).memory ≡ c.memory)
      × ((with_register i v c).memory_size ≡ c.memory_size)
with_register-rest i v c = (ground arith, ground arith)

load-round :
    (i a v : ℕ) (c : M68kCpu)
    → Accessible size_long a c.memory_size
    → a + 4 < 2 ^ 24
    → memory_long c a ≡ v
    → movem_load size_long i a no_host c ≡ (
      ok (a + 4),
      with_register i v (record c { cycles_remaining = c.cycles_remaining -ℤ pos 8 }),
    )
unfolding movem_load set_mask_register m68k_read_size memory_long
load-round i a v c h small read =
    let masked : mask_address_24 a ≡ a = omega arith in
    let next : add32 a 4 ≡ a + 4 = omega arith in
    let r = read_size-memory m68k_exception size_long a c h in
    elim (Bool-cases (ltb i 8)) [
      | inl low ↦ rw (r, masked, read, next, low) refl
      | inr high ↦ rw (r, masked, read, next, high) refl
    ]

-- The first long of a saved block.
saved-first :
    (n i mask a : ℕ) (regs mem : ℕ → ℕ) (c : M68kCpu)
    → test_bit i mask ≡ true
    → regs i < 2 ^ 32
    → ((x : ℕ) → c.memory x ≡ saved (suc n) i mask a regs mem x)
    → memory_long c a ≡ regs i
unfolding memory_long saved
saved-first n i mask a regs mem c here fits block =
    let c1 = record c { memory = mem } in
    let at : (k : ℕ) → k < 4 → c.memory (a + k) ≡ store_long a (regs i) mem (a + k) = λ k lt.
      block (a + k)
      ∙ rw here (
          saved-below n (suc i) mask (a + 4) regs (store_long a (regs i) mem) (a + k)
            (omega arith)) in
    let value : memory_long (record c { memory = store_long a (regs i) mem }) a ≡ regs i =
      memory_value-stored size_long a (regs i) c1 ∙ omega (arith, fits) in
    ground (arith, at 0, at 1, at 2, at 3, value)

-- The registers of the mask from `i` on, in `n` rounds, are those given, and the others are kept.
abbrev pub Loaded : ℕ → ℕ → ℕ → (ℕ → ℕ) → M68kCpu → M68kCpu → Type 0
Loaded n i mask regs c d =
    (j : ℕ)
    → mask_register j d
      ≡ (if leb i j && ltb j (i + n) && test_bit j mask then regs j else mask_register j c)

same_or_other : (j i : ℕ) → (j ≡ i) ⊎ ((j == i) ≡ false)
same_or_other j i = elim (Bool-cases (j == i)) [
  | inl same ↦ inl (ground (arith, same))
  | inr other ↦ inr other
]

-- The round of register `i` adds that register to those that the later rounds load, when its bit is set.
chosen-kept :
    (n i mask j x y : ℕ)
    → test_bit i mask ≡ false
    → (if leb (suc i) j && ltb j (suc i + n) && test_bit j mask then x else y)
      ≡ (if leb i j && ltb j (i + suc n) && test_bit j mask then x else y)
chosen-kept n i mask j x y clear = elim (same_or_other j i) [
  | inl same ↦
      let at : test_bit j mask ≡ false = ap (λ k. test_bit k mask) same ∙ clear in
      ground (arith, at)
  | inr other ↦ ground arith
]

chosen-next :
    (n i mask j x y z : ℕ)
    → test_bit i mask ≡ true
    → (j ≡ i → z ≡ x)
    → (if leb (suc i) j && ltb j (suc i + n) && test_bit j mask
        then x
        else (if j == i then z else y))
      ≡ (if leb i j && ltb j (i + suc n) && test_bit j mask then x else y)
chosen-next n i mask j x y z set same_value = elim (same_or_other j i) [
  | inl same ↦
      let at : test_bit j mask ≡ true = ap (λ k. test_bit k mask) same ∙ set in
      ground (arith, at, same_value same)
  | inr other ↦ ground arith
]

load-rounds :
    (n i mask a : ℕ) (regs mem : ℕ → ℕ) (c : M68kCpu)
    → Room n a c.memory_size
    → ((j : ℕ) → regs j < 2 ^ 32)
    → ((x : ℕ) → c.memory x ≡ saved n i mask a regs mem x)
    → (end : ℕ) × (d : M68kCpu) × (for_mask n i mask (movem_load size_long) a no_host c
        ≡ (ok end, d))
      × Loaded n i mask regs c d
unfolding for_mask saved
load-rounds zero i mask a regs mem c room fits block = (a, c, refl, λ j. ground arith)
load-rounds (suc n) i mask a regs mem c (even, bound, small) fits block =
    elim (Bool-cases (test_bit i mask)) [
      | inl here ↦
          let c0 = record c { cycles_remaining = c.cycles_remaining -ℤ pos 8 } in
          let c1 = with_register i (regs i) c0 in
          let round =
            load-round i a (regs i) c (omega arith, even) (omega arith)
              (saved-first n i mask a regs mem c here (fits i) block) in
          let (mem_kept, size_kept) = with_register-rest i (regs i) c0 in
          let room1 : Room n (a + 4) c1.memory_size =
            (omega arith, omega (arith, size_kept), omega (arith, size_kept)) in
          let block1 : (x : ℕ)
              → c1.memory x ≡ saved n (suc i) mask (a + 4) regs (store_long a (regs i) mem) x =
            λ x. ap (λ m. m x) mem_kept ∙ (rw here at (block x)) in
          let (end, d, rest, same) =
            load-rounds n (suc i) mask (a + 4) regs (store_long a (regs i) mem) c1 room1 fits
              block1 in
          (
            end,
            d,
            rw (here, round) rest,
            λ j.
                same j
                ∙ rw (mask_register-with_register i j (regs i) c0.cycles_remaining c) (
                    chosen-next n i mask j (regs j) (mask_register j c) (regs i) here
                      (λ e. ap regs (sym e))),
          )
      | inr not_here ↦
          let (end, d, rest, same) =
            load-rounds n (suc i) mask a regs mem c (even, omega arith, small) fits
              (rw not_here at block) in
          (
            end,
            d,
            rw not_here rest,
            λ j. same j ∙ chosen-kept n i mask j (regs j) (mask_register j c) not_here,
          )
    ]

-- Loading, with what MOVEM does around the loop.
pub movem_to_registers-saved :
    (mode reg mask a : ℕ) (regs mem : ℕ → ℕ) (c : M68kCpu)
    → (mode == 3) ≡ false
    → Room 16 a c.memory_size
    → ((j : ℕ) → regs j < 2 ^ 32)
    → ((x : ℕ) → c.memory x ≡ saved 16 0 mask a regs mem x)
    → (d : M68kCpu) × (movem_to_registers mode reg size_long mask a no_host c ≡ (ok tt, d))
      × Loaded 16 0 mask regs c d
unfolding movem_to_registers mask_register
movem_to_registers-saved mode reg mask a regs mem c plain room fits block =
    elim (Bool-cases (mode == 7 && (reg == 2 || reg == 3))) [
      | inl program ↦
          let (end, d, rest, same) =
            load-rounds 16 0 mask a regs mem (record c { operand_program_space = true }) room fits
              block in
          (
            record d {
              operand_program_space = false;
              cycles_remaining = d.cycles_remaining -ℤ pos 4;
            },
            rw (program, rest, plain) refl,
            same,
          )
      | inr plain_space ↦
          let (end, d, rest, same) = load-rounds 16 0 mask a regs mem c room fits block in
          (
            record d {
              operand_program_space = false;
              cycles_remaining = d.cycles_remaining -ℤ pos 4;
            },
            rw (plain_space, rest, plain) refl,
            same,
          )
    ]

pub movem_to_memory-saved :
    (mode reg mask a : ℕ) (c : M68kCpu)
    → (mode == 4) ≡ false
    → Room 16 a c.memory_size
    → (cycles : ℤ) × (movem_to_memory mode reg size_long mask a no_host c ≡ (
      ok tt,
      record c {
        memory = saved 16 0 mask a (λ j. mask_register j c) c.memory;
        cycles_remaining = cycles;
      },
    ))
unfolding movem_to_memory
movem_to_memory-saved mode reg mask a c plain room =
    let (end, cycles, rounds) = store-rounds 16 0 mask a c room in (cycles, rw (plain, rounds) refl)
