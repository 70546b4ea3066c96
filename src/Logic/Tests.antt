-- ===== src/Logic/Tests.antt =====
-- Concrete operands for the theorems on CLR and on the shifts.
use rocket.Base.{◌≡◌, refl, arith, true, false, if◌then◌else◌, ◌==◌}
use rocket.Cpu.{M68kCpu, zero_cpu, size_byte, size_word, ok}
use rocket.Logic.Shift.{start, shift_rounds, lsl, lsr, rol, ror}
use rocket.Logic.Unary.{exec_clr}
use rocket.Logic.Clear.{logging_host, read_at, write_at, exec_clr-reads}
use rocket.Logic.Rotate.{shift_rounds-ror_rol, shift_rounds-power}

-- CLR.W (A0) with A0 at 0x100.
abbrev pointer : M68kCpu
pointer = record zero_cpu { a_regs = λ i. (if i == 0 then 0x100 else 0); memory = λ a. 7 }

exec_clr-reads_example :
    let c' = (exec_clr 0x4250 logging_host pointer).1 in
    ((exec_clr 0x4250 logging_host pointer).0 ≡ ok tt)
    × (c'.host_state ≡ write_at 0x100 (read_at 0x100 (read_at 0x100 0)))
    × (c'.memory 0x100 ≡ 0)
exec_clr-reads_example = exec_clr-reads 0x4250 pointer refl refl refl

shift_rounds-ror_rol_example :
    (shift_rounds 3 ror size_byte (record {
      result = (shift_rounds 3 rol size_byte (start 0xB4 false)).result;
      carry = true;
      overflow = false;
      extend = true;
    })).result
    ≡ 0xB4
shift_rounds-ror_rol_example =
    shift_rounds-ror_rol 3 size_byte (start 0xB4 false) true false true (omega arith)

shift_rounds-power_example :
    ((shift_rounds 5 lsl size_word (start 0x1234 false)).result ≡ 0x4680)
    × ((shift_rounds 5 lsr size_word (start 0x1234 false)).result ≡ 0x91)
shift_rounds-power_example = shift_rounds-power 5 size_word (start 0x1234 false) (omega arith)
