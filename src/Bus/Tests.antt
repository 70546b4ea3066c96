-- ===== src/Bus/Tests.antt =====
-- A concrete memory for the theorem on reads after writes.
use rocket.Base.{ℕ, ◌≤◌, ◌<◌, ◌≡◌, ◌⊎◌, refl, arith}
use rocket.Cpu.{M68kCpu, size_long, no_host, zero_cpu, ok, jump}
use rocket.Bus.Read.{read_size}
use rocket.Bus.Write.{write_size}
use rocket.Bus.Memory.{write_size-read_size}

abbrev small_memory : M68kCpu
small_memory = record zero_cpu { memory_size = 0x1000 }

-- A long at an address whose top byte the bus does not see.
write_size-read_size_example :
    let exc = λ (vector : ℕ). jump in
    let c' = (write_size exc 0xFF000100 0x12345678 size_long no_host small_memory).1 in
    ((write_size exc 0xFF000100 0x12345678 size_long no_host small_memory).0 ≡ ok tt)
    × (read_size exc 0xFF000100 size_long no_host c' ≡ (ok 0x12345678, c'))
    × ((i : ℕ) → (i < 0x100) ⊎ (0x104 ≤ i) → c'.memory i ≡ 0)
write_size-read_size_example =
    write_size-read_size (λ vector. jump) size_long 0xFF000100 0x12345678 small_memory
      (omega arith, refl)
