-- ===== src/Exception/Stacks.antt =====
-- The two stack pointers behind A7, through a change of the status register (src/m68k/m68k.c:
-- `m68k_set_sr`).
use rocket.Base.{ℕ, ◌<◌, ◌≡◌, if◌then◌else◌, arith, test_bit, bit_and}
use rocket.Cpu.{M68kCpu, sr_s}
use rocket.Exception.Process.{set_sr}

-- The stack pointer of each mode: A7 is the one of the current mode, the other is saved.
abbrev pub user_stack : M68kCpu → ℕ
user_stack c = if test_bit sr_s c.sr then c.usp else c.a_regs 7

abbrev pub supervisor_stack : M68kCpu → ℕ
supervisor_stack c = if test_bit sr_s c.sr then c.a_regs 7 else c.ssp

-- Whatever is written to the status register, only its implemented bits are kept, the stack
-- pointers of both modes keep their values, and so does every register below A7.
pub set_sr-stacks :
    (v : ℕ) (c : M68kCpu)
    → ((set_sr v c).sr ≡ bit_and v 0xA71F)
      × (user_stack (set_sr v c) ≡ user_stack c)
      × (supervisor_stack (set_sr v c) ≡ supervisor_stack c)
      × ((i : ℕ) → i < 7 → (set_sr v c).a_regs i ≡ c.a_regs i)
unfolding set_sr
set_sr-stacks v c = (ground arith, ground arith, ground arith, λ i lt. ground arith)
