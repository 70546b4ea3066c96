-- ===== src/Logic/Clear.antt =====
-- The bus cycles of CLR on memory (src/m68k/ops_logic.c: `m68k_exec_clr`).
use rocket.Base.{ℕ, ◌+◌, ◌*◌, ◌^◌, ◌%◌, ◌≡◌, refl, some, ◌==◌, if◌then◌else◌, arith, u16}
use rocket.Cpu.{M68kCpu, size_word, Host, no_host, ok}
use rocket.Bus.{mask_address_24, read_size, read_16, write_size, write_16, set_fc, apply_wait_bus}
use rocket.Exception.{m68k_read_size, m68k_write_size}
use rocket.Ea.{m68k_calc_ea, calc_ea_ex, memory_operand, set_fault_pc}
use rocket.Decode.{mode_field, ea_reg_field, size_field}
use rocket.Logic.Unary.{exec_clr, clear_operand}

-- A log of bus cycles in a number: the latest cycle, its address and whether it writes, comes last.
abbrev pub logged : ℕ → ℕ → ℕ → ℕ
logged log a kind = log * 2 ^ 25 + a * 2 + kind

abbrev pub read_at : ℕ → ℕ → ℕ
read_at a log = logged log a 0

abbrev pub write_at : ℕ → ℕ → ℕ
write_at a log = logged log a 1

-- A host that logs the word accesses in its state and keeps what was written in the memory.
abbrev pub logging_host : Host
logging_host = record no_host {
  read16_cb = some (λ a c. (c.memory a, record c { host_state = read_at a c.host_state }));
  write16_cb = some (λ a v c. record c {
    memory = λ i. if i == a then v else c.memory i;
    host_state = write_at a c.host_state;
  });
}

logged_read :
    (a : ℕ) (c : M68kCpu)
    → a % 2 ≡ 0
    → m68k_read_size a size_word logging_host c ≡ (
      ok (u16 (c.memory (mask_address_24 a))),
      record c { host_state = read_at (mask_address_24 a) c.host_state },
    )
unfolding m68k_read_size read_size read_16 set_fc apply_wait_bus
logged_read a c even = ground arith

logged_write :
    (a v : ℕ) (c : M68kCpu)
    → a % 2 ≡ 0
    → m68k_write_size a v size_word logging_host c ≡ (
      ok tt,
      record c {
        memory = λ i. if i == mask_address_24 a then u16 v else c.memory i;
        host_state = write_at (mask_address_24 a) c.host_state;
      },
    )
unfolding m68k_write_size write_size write_16 set_fc apply_wait_bus
logged_write a v c even = ground arith

-- CLR.W (An) at an even address makes three word accesses: it reads the word at the address, reads it again,
-- and then writes zero there. A host that logs the kind and the address of each word access logs
-- these three, in that order and no other.
pub exec_clr-reads :
    (opcode : ℕ) (c : M68kCpu)
    → size_field opcode ≡ 1
    → mode_field opcode ≡ 2
    → c.a_regs (ea_reg_field opcode) % 2 ≡ 0
    → let (r, c') = exec_clr opcode logging_host c in
      let a = mask_address_24 (c.a_regs (ea_reg_field opcode)) in
      (r ≡ ok tt)
      × (c'.host_state ≡ write_at a (read_at a (read_at a c.host_state)))
      × (c'.memory a ≡ 0)
unfolding exec_clr m68k_calc_ea calc_ea_ex memory_operand set_fault_pc clear_operand
exec_clr-reads opcode c word indirect even =
    let a = c.a_regs (ea_reg_field opcode) in
    let r = λ (c' : M68kCpu). logged_read a c' even in
    let w = λ (c' : M68kCpu). logged_write a 0 c' even in
    simp (word, indirect, r, w) (refl, refl, ground arith)
