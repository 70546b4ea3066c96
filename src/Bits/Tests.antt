-- ===== src/Bits/Tests.antt =====
-- Concrete registers for the theorem on BSET and BCLR.
use rocket.Base.{ℕ, ◌<◌, ◌≡◌, ◌≢◌, refl, not, ◌&&◌, ◌||◌, ◌==◌, if◌then◌else◌, test_bit}
use rocket.Cpu.{M68kCpu, no_host, zero_cpu, ok, sr_z}
use rocket.Bits.Handlers.{exec_bset, exec_bclr}
use rocket.Bits.Single.{exec_bset-exec_bclr}

-- D1 numbers bit 35 of D0, which is bit 3.
abbrev bits : M68kCpu
bits = record zero_cpu { d_regs = λ i. (if i == 0 then 0xF0 else if i == 1 then 35 else 0) }

exec_bset-exec_bclr_example :
    let c1 = (exec_bset 0x03C0 no_host bits).1 in
    let c2 = (exec_bclr 0x03C0 no_host bits).1 in
    ((exec_bset 0x03C0 no_host bits).0 ≡ ok tt)
    × ((exec_bclr 0x03C0 no_host bits).0 ≡ ok tt)
    × ((k : ℕ) → test_bit k (c1.d_regs 0) ≡ (test_bit k 0xF0 || (k == 3)))
    × ((k : ℕ) → k < 32 → test_bit k (c2.d_regs 0) ≡ (test_bit k 0xF0 && not (k == 3)))
    × (test_bit sr_z c1.sr ≡ not (test_bit 3 0xF0))
    × (test_bit sr_z c2.sr ≡ not (test_bit 3 0xF0))
    × ((j : ℕ) → j ≢ 0 → (c1.d_regs j ≡ bits.d_regs j) × (c2.d_regs j ≡ bits.d_regs j))
    × (c1.a_regs ≡ bits.a_regs)
    × (c2.a_regs ≡ bits.a_regs)
    × (c1.pc ≡ bits.pc)
    × (c2.pc ≡ bits.pc)
    × (c1.memory ≡ bits.memory)
    × (c2.memory ≡ bits.memory)
unfolding test_bit
exec_bset-exec_bclr_example = exec_bset-exec_bclr 0x03C0 no_host bits refl refl
