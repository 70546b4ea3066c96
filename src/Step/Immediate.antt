-- ===== src/Step/Immediate.antt =====
-- Lines 0 to 3 and 5 to 7: immediate and bit operations, MOVE, ADDQ, Bcc and MOVEQ.
use rocket.Base.{
  ℕ, ◌+◌, ◌*◌, ◌&&◌, ◌||◌, Option, none, ◌==◌, leb, if◌then◌else◌, bit_and, shr, low_bits, test_bit,
}
use rocket.Cpu.{M, pure, gets, ◌>>=◌}
use rocket.Bus.{m68k_peek_word}
use rocket.Decode.{reg_field, opmode_field, mode_field, size_field}
use rocket.Arith.{exec_addi, exec_subi, exec_cmpi, exec_addq, exec_subq}
use rocket.Logic.{exec_ori, exec_andi, exec_eori}
use rocket.Bits.{exec_btst, exec_bchg, exec_bclr, exec_bset}
use rocket.Move.{exec_move, exec_movep, exec_moves, exec_moveq}
use rocket.Control.{exec_bcc, exec_dbcc, exec_scc}
use rocket.Step.Cost.{register_dest, imm_alu_cycles, run, illegal, on_68010, or_next}

-- `BTST`, `BCHG`, `BCLR` or `BSET` by the size field, with their costs for a register and memory.
unfoldable pub bit_operation : ℕ → ℕ → ℕ → ℕ → ℕ → M (Option ℕ)
bit_operation opcode test change clear set =
    let subop = size_field opcode in
    if subop == 0
    then run (exec_btst opcode) test
    else if subop == 1
    then run (exec_bchg opcode) change
    else if subop == 2
    then run (exec_bclr opcode) clear
    else run (exec_bset opcode) set

-- The bit number stands in the next word, which is looked at for a register only.
unfoldable pub step_static_bit : ℕ → M (Option ℕ)
step_static_bit opcode = do
  let breg = register_dest opcode
  word ← (if breg then (do pc ← gets (λ c. c.pc); m68k_peek_word pc) else pure 0)
  let bhi = (if breg && leb 16 (low_bits word 5) then 1 else 0)
  let cost = λ (register memory : ℕ). (if breg then register else memory)
  bit_operation opcode (cost 10 8) (cost (10 + 2 * bhi) 12) (cost (12 + 2 * bhi) 12)
      (cost (10 + 2 * bhi) 12)

unfoldable pub step_dynamic_bit : ℕ → M (Option ℕ)
step_dynamic_bit opcode =
    if mode_field opcode == 1
    then run (exec_movep opcode) (if test_bit 6 opcode then 24 else 16)
    else (do
      number ← gets (λ c. c.d_regs (reg_field opcode))
      let bit_hi = (if leb 16 (low_bits number 5) then 1 else 0)
      let reg_dest = register_dest opcode
      let imm_dest = bit_and opcode 0x3F == 0x3C
      let cost = λ (register memory : ℕ). (if reg_dest then register else memory)
      bit_operation opcode (cost 6 (if imm_dest then 6 else 4)) (cost (6 + 2 * bit_hi) 8)
          (cost (8 + 2 * bit_hi) 8) (cost (6 + 2 * bit_hi) 8))

-- The immediate operations on data, CCR and SR.
unfoldable pub step_immediate : ℕ → ℕ → M (Option ℕ)
step_immediate top4 opcode =
    let cost =
      λ (status : ℕ). (if bit_and opcode 0xFFBF == status then 20 else imm_alu_cycles opcode) in
    if top4 == 0x00
    then run (exec_ori opcode) (cost 0x003C)
    else if top4 == 0x02
    then run (exec_andi opcode) (cost 0x023C)
    else if top4 == 0x04
    then run (exec_subi opcode) (imm_alu_cycles opcode)
    else if top4 == 0x06
    then run (exec_addi opcode) (imm_alu_cycles opcode)
    else if top4 == 0x0A
    then run (exec_eori opcode) (cost 0x0A3C)
    else if top4 == 0x0C
    then run (exec_cmpi opcode) (if size_field opcode == 2 && register_dest opcode then 6 else 4)
    else pure none

unfoldable pub step_line_0 : ℕ → M (Option ℕ)
step_line_0 opcode =
    let top4 = low_bits (shr opcode 8) 4 in
    let size3 = size_field opcode == 3 in
    if size3
      && (top4 == 0x0 || top4 == 0x2 || top4 == 0x4 || top4 == 0x6 || top4 == 0xA || top4 == 0xC)
    then illegal
    else if top4 == 0x0E
    then (if size3 then illegal else on_68010 (exec_moves opcode) 4)
    else or_next (step_immediate top4 opcode) (
        if top4 == 0x08
        then step_static_bit opcode
        else if test_bit 8 opcode
        then step_dynamic_bit opcode
        else pure none)

-- MOVE: the cost of a predecrement destination is charged by the handler in part.
unfoldable pub step_move : ℕ → M (Option ℕ)
step_move opcode =
    let size_bits = low_bits (shr opcode 12) 2 in
    if size_bits == 0
    then pure none
    else run (exec_move opcode)
        (if opmode_field opcode == 4 then (if size_bits == 2 then 2 else 0) else 4)

unfoldable pub step_line_5 : ℕ → M (Option ℕ)
step_line_5 opcode =
    let mode = mode_field opcode in
    if bit_and opcode 0x00C0 == 0x00C0
    then (if mode == 1 then run (exec_dbcc opcode) 0 else run (exec_scc opcode) 0)
    else run (if test_bit 8 opcode then exec_subq opcode else exec_addq opcode) (
        if mode == 1
        then 8
        else if mode == 0
        then (if size_field opcode == 2 then 8 else 4)
        else (if size_field opcode == 2 then 12 else 8))

unfoldable pub step_line_6 : ℕ → M (Option ℕ)
step_line_6 opcode = run (exec_bcc opcode) 0

unfoldable pub step_line_7 : ℕ → M (Option ℕ)
step_line_7 opcode = if test_bit 8 opcode then pure none else run (exec_moveq opcode) 4
