-- ===== src/Move/Link.antt =====
-- LINK and UNLK on the bound memory (src/m68k/ops_move.c: `m68k_exec_link`, `m68k_exec_unlk`).
use rocket.Base.{
  ℕ, ◌^◌, ◌<◌, ◌≡◌, ◌≢◌, ◌∙◌, ap, refl, true, arith, add32, sub32, sext16, update, pos, ◌-ℤ◌,
}
use rocket.Cpu.{M68kCpu, size_word, size_long, no_host, ok, ◌>>◌}
use rocket.Bus.{mask_address_24, memory_word, memory_long, read_size}
use rocket.Bus.Memory.{Accessible, fetch-memory, read_size-memory, memory_value-stored}
use rocket.Exception.{m68k_exception, m68k_fetch, m68k_push_32, m68k_read_32}
use rocket.Exception.Frame.{pushed, push_32-memory}
use rocket.Decode.{ea_reg_field}
use rocket.Move.Registers.{exec_link, exec_unlk}

-- The context after LINK with the displacement.
abbrev linked : ℕ → ℕ → M68kCpu → M68kCpu
linked reg displacement c =
    let sp = sub32 (c.a_regs 7) 4 in
    let c1 = pushed size_long sp (c.a_regs reg) (record c { pc = add32 c.pc 2 }) in
    let a = update c1.a_regs reg sp in
    record c1 { a_regs = update a 7 (add32 (a 7) (sext16 displacement)) }

exec_link-memory :
    (opcode : ℕ) (c : M68kCpu)
    → Accessible size_word c.pc c.memory_size
    → Accessible size_long (sub32 (c.a_regs 7) 4) c.memory_size
    → exec_link opcode no_host c
      ≡ (ok tt, linked (ea_reg_field opcode) (memory_word c (mask_address_24 c.pc)) c)
unfolding exec_link m68k_fetch m68k_push_32
exec_link-memory opcode c code stack =
    let f = fetch-memory m68k_exception c code in
    let p =
      push_32-memory m68k_exception (c.a_regs (ea_reg_field opcode))
        (record c { pc = add32 c.pc 2 }) stack in
    rw (f, p) refl

-- The context after UNLK with the value that it has read.
abbrev unlinked : ℕ → ℕ → M68kCpu → M68kCpu
unlinked reg value c = record c {
  fault_pc = add32 c.pc 2;
  fault_pc_valid = true;
  cycles_remaining = c.cycles_remaining -ℤ pos 4;
  a_regs = update (update c.a_regs 7 (add32 (c.a_regs reg) 4)) reg value;
}

exec_unlk-memory :
    (opcode : ℕ) (c : M68kCpu)
    → Accessible size_long (c.a_regs (ea_reg_field opcode)) c.memory_size
    → let reg = ea_reg_field opcode in
      exec_unlk opcode no_host c
      ≡ (ok tt, unlinked reg (memory_long c (mask_address_24 (c.a_regs reg))) c)
unfolding exec_unlk m68k_read_32 read_size memory_long
exec_unlk-memory opcode c frame =
    let c1 = record c {
      fault_pc = add32 c.pc 2;
      fault_pc_valid = true;
      cycles_remaining = c.cycles_remaining -ℤ pos 4;
    } in
    let r = read_size-memory m68k_exception size_long (c.a_regs (ea_reg_field opcode)) c1 frame in
    rw r refl

unlinked_registers :
    (reg value i : ℕ) (c c1 : M68kCpu)
    → value ≡ c.a_regs reg
    → add32 (c1.a_regs reg) 4 ≡ c.a_regs 7
    → ((j : ℕ) → j ≢ reg → j ≢ 7 → c1.a_regs j ≡ c.a_regs j)
    → (unlinked reg value c1).a_regs i ≡ c.a_regs i
unlinked_registers reg value i c c1 read top elsewhere = grind (arith, elsewhere i)

-- Without callbacks, with the displacement word and the four bytes below A7 in bound memory at even
-- addresses: LINK An and UNLK An, for n below 7, return and leave every address register as it was,
-- whatever the displacement.
pub exec_link-exec_unlk :
    (link unlk i : ℕ) (c : M68kCpu)
    → ea_reg_field unlk ≡ ea_reg_field link
    → ea_reg_field link ≢ 7
    → Accessible size_word c.pc c.memory_size
    → Accessible size_long (sub32 (c.a_regs 7) 4) c.memory_size
    → c.a_regs 7 < 2 ^ 32
    → c.a_regs (ea_reg_field link) < 2 ^ 32
    → let (r, c') = (exec_link link >> exec_unlk unlk) no_host c in
      (r ≡ ok tt) × (c'.a_regs i ≡ c.a_regs i)
unfolding memory_long
exec_link-exec_unlk link unlk i c same other code stack top_fits an_fits =
    let reg = ea_reg_field link in
    let sp = sub32 (c.a_regs 7) 4 in
    let c1 = linked reg (memory_word c (mask_address_24 c.pc)) c in
    let frame : c1.a_regs reg ≡ sp = ground arith in
    let bound : Accessible size_long (c1.a_regs (ea_reg_field unlk)) c1.memory_size =
      rw (same, frame) stack in
    let l = exec_link-memory link c code stack in
    let u = exec_unlk-memory unlk c1 bound in
    let value : memory_long c1 (mask_address_24 sp) ≡ c.a_regs reg =
      memory_value-stored size_long (mask_address_24 sp) (c.a_regs reg) c ∙ omega arith in
    let read : memory_long c1 (mask_address_24 (c1.a_regs reg)) ≡ c.a_regs reg =
      ap (λ (a : ℕ). memory_long c1 (mask_address_24 a)) frame ∙ value in
    let top : add32 (c1.a_regs reg) 4 ≡ c.a_regs 7 = omega (arith, frame) in
    let elsewhere : (j : ℕ) → j ≢ reg → j ≢ 7 → c1.a_regs j ≡ c.a_regs j =
      λ j not_reg not_top. ground arith in
    rw (l, u, same) (refl, unlinked_registers reg _ i c c1 read top elsewhere)
