-- ===== src/Control/Tests.antt =====
-- A concrete context for the theorem on exceptions and RTE.
use rocket.Base.{ℕ, ◌<◌, ◌≡◌, refl, arith, if◌then◌else◌, ◌==◌, test_bit}
use rocket.Cpu.{M68kCpu, no_host, zero_cpu, ok, ◌>>◌}
use rocket.Exception.{m68k_exception, frame_pc}
use rocket.Exception.Stacks.{user_stack, supervisor_stack}
use rocket.Exception.Entry.{IsReady}
use rocket.Control.Return.{exec_rte}
use rocket.Control.Resume.{m68k_exception-exec_rte}

-- A user program at a TRAP.
abbrev program : M68kCpu
program = record zero_cpu {
  memory_size = 0x10000;
  sr = 0x0015;
  pc = 0x2002;
  ssp = 0x1000;
  a_regs = λ i. (if i == 7 then 0x3000 else i);
}

program-IsReady : IsReady 32 program
unfolding test_bit
program-IsReady = record {
  model = refl;
  low = omega arith;
  even = refl;
  bound = omega arith;
  small = omega arith;
  not_bus_error = ground arith;
  not_address_error = ground arith;
  table = (omega arith, refl);
}

m68k_exception-exec_rte_example :
    let (r, c') = (m68k_exception 32 >> exec_rte 0x4E73) no_host program in
    (r ≡ ok tt)
    × (c'.pc ≡ 0x2002)
    × (c'.sr ≡ 0x0015)
    × (user_stack c' ≡ 0x3000)
    × (supervisor_stack c' ≡ 0x1000)
    × (c'.d_regs ≡ λ i. 0)
    × ((i : ℕ) → i < 7 → c'.a_regs i ≡ program.a_regs i)
unfolding test_bit frame_pc
m68k_exception-exec_rte_example =
    m68k_exception-exec_rte 32 0x4E73 program program-IsReady refl (omega arith) (omega arith)
