-- ===== src/Move/Exchange.antt =====
-- EXG and SWAP, run once and twice (src/m68k/ops_move.c: `m68k_exec_exg`, `m68k_exec_swap`).
use rocket.Base.{
  ℕ, ◌+◌, ◌*◌, ◌/◌, ◌%◌, ◌^◌, ◌<◌, ◌≡◌, ◌∙◌, ap, refl, arith, bit_or, bit_or_fields, shl, shr, u32,
  update-same, low_bits,
}
use rocket.Cpu.{M68kCpu, Host, ok, ◌>>◌}
use rocket.Flags.{update_flags_logic}
use rocket.Decode.{reg_field, ea_reg_field}
use rocket.Move.Registers.{exg, exec_exg, swap, exec_swap}

exg-twice :
    (opmode rx ry i : ℕ) (c : M68kCpu)
    → let c' = exg opmode rx ry (exg opmode rx ry c) in
      (c'.d_regs i ≡ c.d_regs i) × (c'.a_regs i ≡ c.a_regs i)
unfolding exg
exg-twice opmode rx ry i c = (ground arith, ground arith)

swap_lem : (v : ℕ) → v < 2 ^ 32 → swap v ≡ v % 2 ^ 16 * 2 ^ 16 + v / 2 ^ 16
unfolding swap
swap_lem v lt =
    let high : u32 (shl v 16) ≡ v % 2 ^ 16 * 2 ^ 16 = omega arith in
    ap (λ (t : ℕ). bit_or t (shr v 16)) high
    ∙ bit_or_fields 16 (v % 2 ^ 16) (shr v 16) (omega arith)

-- EXG of any two registers, run twice, leaves every register as it was, under any host.
pub exec_exg-twice :
    (opcode i : ℕ) (h : Host) (c : M68kCpu)
    → let (r, c') = (exec_exg opcode >> exec_exg opcode) h c in
      (r ≡ ok tt) × (c'.d_regs i ≡ c.d_regs i) × (c'.a_regs i ≡ c.a_regs i)
unfolding exec_exg
exec_exg-twice opcode i h c =
    let t = exg-twice (low_bits (shr opcode 3) 5) (reg_field opcode) (ea_reg_field opcode) i c in
    (refl, t.0, t.1)

-- SWAP on a register of 32 bits exchanges its halves, and a second SWAP restores the register, under
-- any host.
pub exec_swap-halves :
    (opcode : ℕ) (h : Host) (c : M68kCpu)
    → let reg = ea_reg_field opcode in
      let v = c.d_regs reg in
      v < 2 ^ 32
      → let c1 = (exec_swap opcode h c).1 in
        let (r, c2) = (exec_swap opcode >> exec_swap opcode) h c in
        (r ≡ ok tt)
        × (c1.d_regs reg % 2 ^ 16 ≡ v / 2 ^ 16)
        × (c1.d_regs reg / 2 ^ 16 ≡ v % 2 ^ 16)
        × (c2.d_regs reg ≡ v)
unfolding exec_swap update_flags_logic
exec_swap-halves opcode h c lt =
    let reg = ea_reg_field opcode in
    let v = c.d_regs reg in
    let once = swap_lem v lt in
    let twice = swap_lem (swap v) (omega (arith, once)) in
    rw (update-same c.d_regs reg (swap v))
      (refl, omega (arith, once), omega (arith, once), ground (arith, once, twice))
