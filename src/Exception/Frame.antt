-- ===== src/Exception/Frame.antt =====
-- The short stack frame on the bound memory, and how it is read back (src/m68k/m68k.c:
-- `m68k_push_32`, `m68k_pop_32`, `m68k_exception`).
use rocket.Base.{
  ℕ, ◌+◌, ◌-◌, ◌*◌, ◌%◌, ◌^◌, ◌<◌, ◌≤◌, ◌≡◌, ◌∙◌, ap, refl, inr, Bool, false, ⊤, arith, add32,
  sub32, u16, update,
}
use rocket.Cpu.{
  M68kCpu, M68kSize, size_word, size_long, Host, no_host, ok, M, ◌>>◌, when, model_68000, is_68010,
}
use rocket.Bus.{write_size, read_size, mask_address_24, memory_word, memory_long}
use rocket.Bus.Memory.{
  Accessible, stored, read_size-memory, write_size-memory, write_16-memory, memory_value-stored,
  stored-elsewhere,
}
use rocket.Exception.Process.{push_32, push_16, pop_32, pop_16, push_short_frame}

-- The context after a value of the size has been pushed on the stack at `sp`.
abbrev pub pushed : M68kSize → ℕ → ℕ → M68kCpu → M68kCpu
pushed size sp v c = record c {
  a_regs = update c.a_regs 7 sp;
  memory = stored size (mask_address_24 sp) v c.memory;
}

memory_long-same :
    (c c' : M68kCpu) (a : ℕ)
    → ((k : ℕ) → c.memory (a + k) ≡ c'.memory (a + k))
    → memory_long c a ≡ memory_long c' a
unfolding memory_long
memory_long-same c c' a same = ground (arith, same 0, same 1, same 2, same 3)

bind_when-false :
    (h : Host) (c : M68kCpu) (b : Bool) (m k : M ⊤) → b ≡ false → (when b m >> k) h c ≡ k h c
bind_when-false h c b m k e = rw e refl

module _ (exc : ℕ → M ⊤) where
  pub push_32-memory :
      (v : ℕ) (c : M68kCpu)
      → Accessible size_long (sub32 (c.a_regs 7) 4) c.memory_size
      → push_32 exc v no_host c ≡ (ok tt, pushed size_long (sub32 (c.a_regs 7) 4) v c)
  unfolding push_32 write_size
  push_32-memory v c h = write_size-memory exc size_long (sub32 (c.a_regs 7) 4) v _ h

  pub push_16-memory :
      (v : ℕ) (c : M68kCpu)
      → Accessible size_word (sub32 (c.a_regs 7) 2) c.memory_size
      → push_16 exc v no_host c ≡ (ok tt, pushed size_word (sub32 (c.a_regs 7) 2) v c)
  unfolding push_16
  push_16-memory v c h = write_16-memory exc (sub32 (c.a_regs 7) 2) v _ h

  pub pop_32-memory :
      (c : M68kCpu)
      → Accessible size_long (c.a_regs 7) c.memory_size
      → pop_32 exc no_host c ≡ (
        ok (memory_long c (mask_address_24 (c.a_regs 7))),
        record c { a_regs = update c.a_regs 7 (add32 (c.a_regs 7) 4) },
      )
  unfolding pop_32 read_size
  pop_32-memory c h = rw (read_size-memory exc size_long (c.a_regs 7) c h) refl

  pub pop_16-memory :
      (c : M68kCpu)
      → Accessible size_word (c.a_regs 7) c.memory_size
      → pop_16 exc no_host c ≡ (
        ok (memory_word c (mask_address_24 (c.a_regs 7))),
        record c { a_regs = update c.a_regs 7 (add32 (c.a_regs 7) 2) },
      )
  unfolding pop_16 read_size
  pop_16-memory c h = rw (read_size-memory exc size_word (c.a_regs 7) c h) refl

  -- A frame of six bytes below an even stack pointer.
  pub push_short_frame-memory :
      (vector pc sr sp : ℕ) (c : M68kCpu)
      → c.model ≡ model_68000
      → c.a_regs 7 ≡ sp
      → 6 ≤ sp
      → sp % 2 ≡ 0
      → sp ≤ c.memory_size
      → sp < 2 ^ 24
      → push_short_frame exc vector pc sr no_host c
        ≡ (ok tt, pushed size_word (sp - 6) sr (pushed size_long (sp - 4) pc c))
  unfolding push_short_frame
  push_short_frame-memory vector pc sr sp c model top low even bound small =
      let d4 : sub32 (c.a_regs 7) 4 ≡ sp - 4 = omega arith in
      let d2 : sub32 (sp - 4) 2 ≡ sp - 6 = omega arith in
      let p1 : push_32 exc pc no_host c ≡ (ok tt, pushed size_long (sp - 4) pc c) =
        rw d4 at (push_32-memory pc c (omega arith, omega arith)) in
      let p2 : push_16 exc sr no_host (pushed size_long (sp - 4) pc c)
          ≡ (ok tt, pushed size_word (sp - 6) sr (pushed size_long (sp - 4) pc c)) =
        rw d2 at (push_16-memory sr (pushed size_long (sp - 4) pc c) (omega arith, omega arith)) in
      let plain : is_68010 c.model ≡ false = ap is_68010 model in
      bind_when-false no_host c (is_68010 c.model) (push_16 exc (u16 (vector * 4)))
        (push_32 exc pc >> push_16 exc sr) plain
      ∙ rw (p1, p2) refl

-- The context with the frame, and the two parts of the frame read back.
abbrev pub framed : ℕ → ℕ → ℕ → M68kCpu → M68kCpu
framed pc sr sp c = pushed size_word (sp - 6) sr (pushed size_long (sp - 4) pc c)

module _ (pc sr sp : ℕ) (c : M68kCpu) (low : 6 ≤ sp) (small : sp < 2 ^ 24) where
  pub framed-sr : memory_word (framed pc sr sp c) (mask_address_24 (sp - 6)) ≡ sr % 2 ^ 16
  unfolding memory_word
  framed-sr =
      memory_value-stored size_word (mask_address_24 (sp - 6)) sr (pushed size_long (sp - 4) pc c)

  above :
      (k : ℕ)
      → (framed pc sr sp c).memory (mask_address_24 (sp - 4) + k)
        ≡ (pushed size_long (sp - 4) pc c).memory (mask_address_24 (sp - 4) + k)
  above k =
      stored-elsewhere size_word (mask_address_24 (sp - 6)) sr (mask_address_24 (sp - 4) + k)
        (pushed size_long (sp - 4) pc c).memory (inr (omega arith))

  pub framed-pc : memory_long (framed pc sr sp c) (mask_address_24 (sp - 4)) ≡ pc % 2 ^ 32
  unfolding memory_long
  framed-pc =
      memory_long-same (framed pc sr sp c) (pushed size_long (sp - 4) pc c)
        (mask_address_24 (sp - 4)) above
      ∙ memory_value-stored size_long (mask_address_24 (sp - 4)) pc c
