-- ===== src/Ea/Register.antt =====
-- A data register as the operand (src/m68k/m68k.c: `m68k_calc_ea` in mode 0).
use rocket.Base.{ℕ, ◌≡◌, ◌∙◌, ap, true, ℤ, pos, ◌-ℤ◌, -ℤ-zero}
use rocket.Cpu.{M68kCpu, M68kSize, size_byte, size_word, size_long, Host, Outcome, ok}
use rocket.Ea.Cycles.{ea_cycles, ea_cycle_table}
use rocket.Ea.Calc.{M68kEa, zero_ea, set_fault_pc, calc_ea_ex, m68k_calc_ea}

abbrev pub register_ea : ℕ → ℕ → M68kEa
register_ea reg v = record zero_ea { value = v; is_reg = true; reg_num = reg }

abbrev with_cycles : M68kEa → M68kCpu → ℤ → Outcome M68kEa × M68kCpu
with_cycles ea c z = (ok ea, record c { cycles_remaining = z })

free_twice :
    (ea : M68kEa) (c : M68kCpu)
    → with_cycles ea c (c.cycles_remaining -ℤ pos 0 -ℤ pos 0) ≡ with_cycles ea c c.cycles_remaining
free_twice ea c =
    ap (λ (z : ℤ). with_cycles ea c (z -ℤ pos 0)) (-ℤ-zero c.cycles_remaining)
    ∙ ap (with_cycles ea c) (-ℤ-zero c.cycles_remaining)

-- The operand is the register's value, at no cost.
pub m68k_calc_ea-register :
    (reg : ℕ) (size : M68kSize) (h : Host) (c : M68kCpu)
    → m68k_calc_ea 0 reg size h c ≡ (ok (register_ea reg (c.d_regs reg)), c)
unfolding m68k_calc_ea calc_ea_ex set_fault_pc ea_cycles ea_cycle_table
m68k_calc_ea-register reg size_byte h c = free_twice (register_ea reg (c.d_regs reg)) c
m68k_calc_ea-register reg size_word h c = free_twice (register_ea reg (c.d_regs reg)) c
m68k_calc_ea-register reg size_long h c = free_twice (register_ea reg (c.d_regs reg)) c
