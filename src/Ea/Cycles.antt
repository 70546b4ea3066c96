-- ===== src/Ea/Cycles.antt =====
-- The cycle costs of the addressing modes.
use rocket.Base.{ℕ, Bool, ◌&&◌, ◌==◌, leb, if◌then◌else◌}
use rocket.Cpu.{M68kSize, is_long}

-- `m68k_ea_cycle_table`: byte or word, and long.
unfoldable pub ea_cycle_table : ℕ → M68kSize → ℕ
ea_cycle_table idx size =
    let pick = λ (short long : ℕ). (if is_long size then long else short) in
    if idx == 0
    then pick 0 0
    else if idx == 1
    then pick 0 0
    else if idx == 2
    then pick 4 8
    else if idx == 3
    then pick 4 8
    else if idx == 4
    then pick 6 10
    else if idx == 5
    then pick 8 12
    else if idx == 6
    then pick 10 14
    else if idx == 7
    then pick 8 12
    else if idx == 8
    then pick 12 16
    else if idx == 9
    then pick 8 12
    else if idx == 10
    then pick 10 14
    else pick 4 8

unfoldable pub ea_cycles : ℕ → ℕ → M68kSize → ℕ
ea_cycles mode reg size =
    if leb mode 6
    then ea_cycle_table mode size
    else if reg == 0
    then ea_cycle_table 7 size
    else if reg == 1
    then ea_cycle_table 8 size
    else if reg == 2
    then ea_cycle_table 9 size
    else if reg == 3
    then ea_cycle_table 10 size
    else if reg == 4
    then ea_cycle_table 11 size
    else 0

unfoldable pub control_ea_cycles : ℕ → ℕ → Bool → ℕ
control_ea_cycles mode reg is_jmp =
    let pick = λ (jmp lea : ℕ). (if is_jmp then jmp else lea) in
    if mode == 2
    then pick 8 4
    else if mode == 5
    then pick 10 8
    else if mode == 6
    then pick 14 12
    else if mode == 7 && reg == 0
    then pick 10 8
    else if mode == 7 && reg == 1
    then pick 12 12
    else if mode == 7 && reg == 2
    then pick 10 8
    else if mode == 7 && reg == 3
    then pick 14 12
    else 0

unfoldable pub movem_ea_cycles : ℕ → ℕ → Bool → ℕ
movem_ea_cycles mode reg mem_to_reg =
    let pick = λ (load store : ℕ). (if mem_to_reg then load else store) in
    if mode == 2
    then pick 12 8
    else if mode == 3
    then 12
    else if mode == 4
    then 8
    else if mode == 5
    then pick 16 12
    else if mode == 6
    then pick 18 14
    else if mode == 7 && reg == 0
    then pick 16 12
    else if mode == 7 && reg == 1
    then pick 20 16
    else if mode == 7 && reg == 2
    then 16
    else if mode == 7 && reg == 3
    then 18
    else 0
