-- ===== src/Exception/Entry.antt =====
-- The whole of an exception with a short frame, on the bound memory of a 68000 (src/m68k/m68k.c:
-- `m68k_exception`).
use rocket.Base.{
  ℕ, ◌+◌, ◌-◌, ◌*◌, ◌%◌, ◌^◌, ◌<◌, ◌≤◌, ◌≡◌, ◌≢◌, ◌∙◌, ap, refl, true, false, ◌||◌, ⊤, ◌==◌,
  if◌then◌else◌, arith, add32, test_bit, bit_and, bit_or, test_bit-bit_or, test_bit-bit_and,
}
use rocket.Cpu.{M68kCpu, size_long, no_host, ok, M, model_68000, sr_s}
use rocket.Bus.{read_size, mask_address_24, memory_long}
use rocket.Bus.Memory.{Accessible, read_size-memory}
use rocket.Exception.Process.{
  set_sr, frame_pc, enter_exception, clear_fault_latches, take_vector, claimed_by_host, set_pc,
  exception_step, exception_fuel,
}
use rocket.Exception.Access.{m68k_exception}
use rocket.Exception.Stacks.{user_stack, supervisor_stack, set_sr-stacks}
use rocket.Exception.Frame.{framed, push_short_frame-memory}

supervisor_sr : (sr : ℕ) → test_bit sr_s (bit_and (bit_and (bit_or sr 0x2000) 0x7FFF) 0xA71F) ≡ true
unfolding test_bit
supervisor_sr sr = simp (test_bit-bit_and, test_bit-bit_or) (ground arith)

-- Entry switches to supervisor mode: A7 is its stack pointer, and the user's is kept.
pub enter_exception-stacks :
    (vector : ℕ) (c : M68kCpu)
    → let c' = enter_exception vector c in
      (test_bit sr_s c'.sr ≡ true)
      × (c'.a_regs 7 ≡ supervisor_stack c)
      × (c'.usp ≡ user_stack c)
      × ((i : ℕ) → i < 7 → c'.a_regs i ≡ c.a_regs i)
unfolding enter_exception
enter_exception-stacks vector c =
    let thrown = (if c.exception_thrown == 0 then vector else c.exception_thrown) in
    let c0 = record c { exception_thrown = thrown; exception_depth = c.exception_depth + 1 } in
    let (sr, user, supervisor, others) = set_sr-stacks (bit_and (bit_or c.sr 0x2000) 0x7FFF) c0 in
    let s = ap (λ (t : ℕ). test_bit sr_s t) sr ∙ supervisor_sr c.sr in
    (s, ground arith, ground arith, others)

pub enter_exception-rest :
    (vector : ℕ) (c : M68kCpu)
    → let c' = enter_exception vector c in
      (c'.model ≡ c.model)
      × (c'.memory ≡ c.memory)
      × (c'.memory_size ≡ c.memory_size)
      × (c'.vbr ≡ c.vbr)
      × (c'.d_regs ≡ c.d_regs)
      × (c'.exception_depth ≡ c.exception_depth + 1)
unfolding enter_exception set_sr
enter_exception-rest vector c =
    (ground arith, ground arith, ground arith, ground arith, ground arith, ground arith)

-- The context at the end of an exception that has entered at `c1`.
abbrev pub taken : ℕ → ℕ → ℕ → ℕ → M68kCpu → M68kCpu
taken vector pc sr sp c1 =
    let c2 = framed pc sr sp c1 in
    record (clear_fault_latches c2) {
      pc = memory_long c2 (mask_address_24 (add32 c1.vbr (vector * 4)));
      exception_depth = c1.exception_depth - 1;
    }

module _ (exc : ℕ → M ⊤) where
  take_vector-memory :
      (vector pc sr sp : ℕ) (c : M68kCpu)
      → c.model ≡ model_68000
      → c.a_regs 7 ≡ sp
      → 6 ≤ sp
      → sp % 2 ≡ 0
      → sp ≤ c.memory_size
      → sp < 2 ^ 24
      → vector ≢ 2
      → vector ≢ 3
      → Accessible size_long (add32 c.vbr (vector * 4)) c.memory_size
      → take_vector exc vector pc sr no_host c ≡ (
        ok tt,
        record (clear_fault_latches (framed pc sr sp c)) {
          pc = memory_long (framed pc sr sp c) (mask_address_24 (add32 c.vbr (vector * 4)));
        },
      )
  unfolding take_vector set_pc read_size clear_fault_latches memory_long
  take_vector-memory vector pc sr sp c model top low even bound small not2 not3 table =
      let other : (vector == 2 || vector == 3) ≡ false = ground arith in
      let p = push_short_frame-memory exc vector pc sr sp c model top low even bound small in
      let r =
        read_size-memory exc size_long (add32 c.vbr (vector * 4))
          (clear_fault_latches (framed pc sr sp c)) table in
      rw (other, p, r) refl

-- What the round trip asks of the context: a 68000 whose supervisor stack has six free bytes of
-- bound memory at an even address, and a bound vector table.
pub record IsReady (vector : ℕ) (c : M68kCpu) : Type 0 where
  pub model : c.model ≡ model_68000
  pub low : 6 ≤ supervisor_stack c
  pub even : supervisor_stack c % 2 ≡ 0
  pub bound : supervisor_stack c ≤ c.memory_size
  pub small : supervisor_stack c < 2 ^ 24
  pub not_bus_error : vector ≢ 2
  pub not_address_error : vector ≢ 3
  pub table : Accessible size_long (add32 c.vbr (vector * 4)) c.memory_size

claimed_by_host-none : (vector : ℕ) (c : M68kCpu) → claimed_by_host vector no_host c ≡ (ok false, c)
unfolding claimed_by_host
claimed_by_host-none vector c = ground arith

exception_step-memory :
    (exc : ℕ → M ⊤) (vector : ℕ) (c : M68kCpu)
    → IsReady vector c
    → exception_step exc vector no_host c ≡ (
      ok tt,
      taken vector (frame_pc vector c) c.sr (supervisor_stack c) (enter_exception vector c),
    )
unfolding exception_step clear_fault_latches
exception_step-memory exc vector c ready =
    let s = supervisor_stack c in
    let c1 = enter_exception vector c in
    let stacks = enter_exception-stacks vector c in
    let (model, memory, memory_size, vbr, d_regs, depth) = enter_exception-rest vector c in
    let bound : s ≤ c1.memory_size = omega (arith, ready.bound) in
    let table : Accessible size_long (add32 c1.vbr (vector * 4)) c1.memory_size =
      rw (vbr, memory_size) ready.table in
    let t =
      take_vector-memory exc vector (frame_pc vector c) c.sr s c1 (model ∙ ready.model) stacks.1
        ready.low ready.even bound ready.small ready.not_bus_error ready.not_address_error table in
    rw (claimed_by_host-none vector c, t) refl

-- The whole exception, as an equation.
pub m68k_exception-memory :
    (vector : ℕ) (c : M68kCpu)
    → IsReady vector c
    → m68k_exception vector no_host c ≡ (
      ok tt,
      taken vector (frame_pc vector c) c.sr (supervisor_stack c) (enter_exception vector c),
    )
unfolding m68k_exception exception_fuel
m68k_exception-memory vector c ready = exception_step-memory (exception_fuel 2) vector c ready
