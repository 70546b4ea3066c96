-- ===== src/Step/Miscellaneous.antt =====
-- Line 4.
use rocket.Base.{ℕ, ◌||◌, Option, none, some, ◌==◌, if◌then◌else◌, bit_and}
use rocket.Cpu.{M, pure, gets, ◌>>=◌, ◌>>◌}
use rocket.Decode.{mode_field}
use rocket.Arith.{exec_neg, exec_negx, exec_nbcd, exec_ext}
use rocket.Logic.{exec_clr, exec_not, exec_tst}
use rocket.Bits.{exec_tas}
use rocket.Move.{
  exec_move_sr, exec_move_ccr, exec_move_usp, exec_lea, exec_pea, exec_link, exec_unlk, exec_swap,
  exec_movem,
}
use rocket.Control.{
  exec_reset, exec_stop, exec_rte, exec_rts, exec_trapv, exec_rtr, exec_rtd, exec_movec, exec_bkpt,
  exec_trap, exec_jmp, exec_chk,
}
use rocket.Step.Cost.{register_dest, unary_cycles, run, on_68010, or_next}

-- RESET, NOP, STOP, RTE, RTS, TRAPV, RTR, RTD, MOVEC and BKPT.
unfoldable pub step_system : ℕ → M (Option ℕ)
step_system opcode =
    if opcode == 0x4E70
    then run (exec_reset opcode) 132
    else if opcode == 0x4E71
    then pure (some 4)
    else if opcode == 0x4E72
    then run (exec_stop opcode) 4
    else if opcode == 0x4E73
    then run (exec_rte opcode) 20
    else if opcode == 0x4E75
    then run (exec_rts opcode) 16
    else if opcode == 0x4E76
    then run (exec_trapv opcode) 4
    else if opcode == 0x4E77
    then run (exec_rtr opcode) 20
    else if opcode == 0x4E74
    then on_68010 (exec_rtd opcode) 16
    else if opcode == 0x4E7A || opcode == 0x4E7B
    then on_68010 (exec_movec opcode) 12
    else if bit_and opcode 0xFFF8 == 0x4848
    then on_68010 (exec_bkpt opcode) 4
    else pure none

-- TRAP, MOVE USP, JSR and JMP. A JSR whose target faults is not charged for its push.
unfoldable pub step_jump : ℕ → M (Option ℕ)
step_jump opcode =
    if bit_and opcode 0xFFF0 == 0x4E40
    then run (exec_trap opcode) 34
    else if bit_and opcode 0xFFF0 == 0x4E60
    then run (exec_move_usp opcode) 4
    else if bit_and opcode 0xFFC0 == 0x4E80
    then (do
      exec_jmp opcode
      thrown ← gets (λ c. c.exception_thrown)
      pure (some (if thrown == 2 || thrown == 3 then 0 else 8)))
    else if bit_and opcode 0xFFC0 == 0x4EC0
    then run (exec_jmp opcode) 0
    else pure none

-- MOVE SR and CCR, CHK, LEA, EXT, MOVEM, LINK, UNLK, TAS, NBCD, SWAP and PEA.
unfoldable pub step_transfer : ℕ → M (Option ℕ)
step_transfer opcode =
    let cost = λ (register memory : ℕ). (if register_dest opcode then register else memory) in
    if bit_and opcode 0xFFC0 == 0x40C0
    then run (exec_move_sr opcode) (cost 6 8)
    else if bit_and opcode 0xFFC0 == 0x44C0
    then run (exec_move_ccr opcode) 12
    else if bit_and opcode 0xFFC0 == 0x46C0
    then run (exec_move_sr opcode) 12
    else if bit_and opcode 0xF1C0 == 0x4180
    then run (exec_chk opcode) 10
    else if bit_and opcode 0xF1C0 == 0x41C0
    then run (exec_lea opcode) 0
    else if bit_and opcode 0xFB80 == 0x4880
    then (if mode_field opcode == 0 then run (exec_ext opcode) 4 else run (exec_movem opcode) 0)
    else if bit_and opcode 0xFFF8 == 0x4E50
    then run (exec_link opcode) 16
    else if bit_and opcode 0xFFF8 == 0x4E58
    then run (exec_unlk opcode) 8
    else if bit_and opcode 0xFFC0 == 0x4AC0
    then run (exec_tas opcode) (cost 4 10)
    else if bit_and opcode 0xFFC0 == 0x4800
    then run (exec_nbcd opcode) (cost 6 8)
    else if bit_and opcode 0xFFC0 == 0x4840
    then (if mode_field opcode == 0 then run (exec_swap opcode) 4 else run (exec_pea opcode) 8)
    else pure none

-- TST, NEGX, MOVE from CCR, CLR, NEG and NOT.
unfoldable pub step_unary : ℕ → M (Option ℕ)
step_unary opcode =
    if bit_and opcode 0xFF00 == 0x4A00
    then run (exec_tst opcode) 4
    else if bit_and opcode 0xFF00 == 0x4000
    then run (exec_negx opcode) (unary_cycles opcode)
    else if bit_and opcode 0xFFC0 == 0x42C0
    then on_68010 (exec_move_sr opcode) (if register_dest opcode then 4 else 8)
    else if bit_and opcode 0xFF00 == 0x4200
    then run (exec_clr opcode) (unary_cycles opcode)
    else if bit_and opcode 0xFF00 == 0x4400
    then run (exec_neg opcode) (unary_cycles opcode)
    else if bit_and opcode 0xFF00 == 0x4600
    then run (exec_not opcode) (unary_cycles opcode)
    else pure none

unfoldable pub step_line_4 : ℕ → M (Option ℕ)
step_line_4 opcode =
    or_next (step_system opcode)
      (or_next (step_jump opcode) (or_next (step_transfer opcode) (step_unary opcode)))
