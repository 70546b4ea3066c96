-- ===== src/Control/Resume.antt =====
-- An exception and the RTE that returns from it (src/m68k/m68k.c: `m68k_exception`;
-- src/m68k/ops_control.c: `m68k_exec_rte`).
use rocket.Base.{
  ℕ, ◌-◌, ◌^◌, ◌<◌, ◌≤◌, ◌≡◌, ◌∙◌, ap, refl, true, false, arith, add32, update, test_bit, bit_and,
}
use rocket.Cpu.{M68kCpu, size_word, size_long, no_host, ok, ◌>>◌, model_68000, is_68010, sr_s}
use rocket.Bus.{mask_address_24, memory_word, memory_long}
use rocket.Bus.Memory.{Accessible}
use rocket.Exception.{
  m68k_exception, m68k_pop_16, m68k_pop_32, m68k_set_sr, m68k_set_pc, set_sr, set_pc, frame_pc,
  enter_exception, clear_fault_latches,
}
use rocket.Exception.Stacks.{user_stack, supervisor_stack, set_sr-stacks}
use rocket.Exception.Frame.{framed-sr, framed-pc, pop_16-memory, pop_32-memory}
use rocket.Exception.Entry.{
  IsReady, taken, m68k_exception-memory, enter_exception-stacks, enter_exception-rest,
}
use rocket.Control.Return.{privileged, rte_68000, exec_rte}

-- The context after a frame of six bytes has been popped at A7.
abbrev unstacked : M68kCpu → M68kCpu
unstacked c = record c {
  a_regs = update (update c.a_regs 7 (add32 (c.a_regs 7) 2)) 7 (add32 (add32 (c.a_regs 7) 2) 4);
}

abbrev returned : M68kCpu → M68kCpu
returned c = record (set_sr (memory_word c (mask_address_24 (c.a_regs 7))) (unstacked c)) {
  pc = memory_long c (mask_address_24 (add32 (c.a_regs 7) 2));
}

rte_68000-memory :
    (c : M68kCpu)
    → Accessible size_word (c.a_regs 7) c.memory_size
    → Accessible size_long (add32 (c.a_regs 7) 2) c.memory_size
    → rte_68000 no_host c ≡ (ok tt, returned c)
unfolding rte_68000 m68k_pop_16 m68k_pop_32 m68k_set_sr m68k_set_pc set_pc memory_long
rte_68000-memory c h1 h2 =
    let p1 = pop_16-memory m68k_exception c h1 in
    let p2 =
      pop_32-memory m68k_exception (record c { a_regs = update c.a_regs 7 (add32 (c.a_regs 7) 2) })
        h2 in
    rw (p1, p2) refl

exec_rte-memory :
    (opcode : ℕ) (c : M68kCpu)
    → c.model ≡ model_68000
    → test_bit sr_s c.sr ≡ true
    → Accessible size_word (c.a_regs 7) c.memory_size
    → Accessible size_long (add32 (c.a_regs 7) 2) c.memory_size
    → exec_rte opcode no_host c ≡ (ok tt, returned c)
unfolding exec_rte privileged
exec_rte-memory opcode c model supervisor h1 h2 =
    let plain : is_68010 c.model ≡ false = ap is_68010 model in
    rw (supervisor, plain) (rte_68000-memory c h1 h2)

set_sr-d_regs : (v : ℕ) (c : M68kCpu) → (set_sr v c).d_regs ≡ c.d_regs
unfolding set_sr
set_sr-d_regs v c = ground arith

-- On a 68000 without callbacks, with six free bytes of bound memory below the supervisor stack
-- pointer, which is even and below 2^24, with the vector in bound memory at an even address, with
-- only implemented bits in the status register and a frame PC of 32 bits: any exception but a bus or an address
-- error, followed by RTE, returns to the PC of its frame with the status register, the data
-- registers, the address registers below A7 and the stack pointers of both modes as they were.
pub m68k_exception-exec_rte :
    (vector opcode : ℕ) (c : M68kCpu)
    → IsReady vector c
    → bit_and c.sr 0xA71F ≡ c.sr
    → c.sr < 2 ^ 16
    → frame_pc vector c < 2 ^ 32
    → let (r, c') = (m68k_exception vector >> exec_rte opcode) no_host c in
      (r ≡ ok tt)
      × (c'.pc ≡ frame_pc vector c)
      × (c'.sr ≡ c.sr)
      × (user_stack c' ≡ user_stack c)
      × (supervisor_stack c' ≡ supervisor_stack c)
      × (c'.d_regs ≡ c.d_regs)
      × ((i : ℕ) → i < 7 → c'.a_regs i ≡ c.a_regs i)
unfolding clear_fault_latches memory_word memory_long
m68k_exception-exec_rte vector opcode c ready mask fits pc_fits =
    let s = supervisor_stack c in
    let c1 = enter_exception vector c in
    let c2 = taken vector (frame_pc vector c) c.sr s c1 in
    let stacks = enter_exception-stacks vector c in
    let (model, memory, memory_size, vbr, d_regs, depth) = enter_exception-rest vector c in
    let low = ready.low in
    let even = ready.even in
    let bound : s ≤ c1.memory_size = omega (arith, ready.bound) in
    let small = ready.small in
    let e = m68k_exception-memory vector c ready in
    let t =
      exec_rte-memory opcode c2 (model ∙ ready.model) stacks.0 (omega arith, omega arith)
        (omega arith, omega arith) in
    let w = memory_word c2 (mask_address_24 (s - 6)) in
    let popped : w ≡ c.sr = framed-sr (frame_pc vector c) c.sr s c1 low small ∙ omega arith in
    let next : add32 (s - 6) 2 ≡ s - 4 = omega arith in
    let resumed : memory_long c2 (mask_address_24 (add32 (s - 6) 2)) ≡ frame_pc vector c =
      ap (λ (a : ℕ). memory_long c2 (mask_address_24 a)) next
      ∙ framed-pc (frame_pc vector c) c.sr s c1 low small
      ∙ omega arith in
    let (sr, user, supervisor, others) = set_sr-stacks w (unstacked c2) in
    let user_top : user_stack (unstacked c2) ≡ user_stack c = rw stacks.0 stacks.2 in
    let supervisor_top : supervisor_stack (unstacked c2) ≡ s = rw stacks.0 (omega arith) in
    let below : (i : ℕ) → i < 7 → (unstacked c2).a_regs i ≡ c1.a_regs i = λ i lt. ground arith in
    rw (e, t)
      (
        refl,
        resumed,
        sr ∙ ap (λ (v : ℕ). bit_and v 0xA71F) popped ∙ mask,
        user ∙ user_top,
        supervisor ∙ supervisor_top,
        set_sr-d_regs w (unstacked c2) ∙ d_regs,
        λ i lt. others i lt ∙ below i lt ∙ stacks.3 i lt,
      )
