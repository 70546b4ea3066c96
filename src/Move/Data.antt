-- ===== src/Move/Data.antt =====
-- MOVE and MOVEA.
use rocket.Base.{
  ℕ, ◌+◌, Bool, true, false, not, ◌&&◌, ◌||◌, Option, none, some, ⊤, ◌==◌, ltb, leb, if◌then◌else◌,
  bit_and, bit_or, shr, low_bits, test_bit, u16, add32, sub32, sext16,
}
use rocket.Cpu.{
  M68kSize, size_byte, size_word, size_long, is_long, is_byte, M, pure, gets, modify, when,
  modify_sr, set_a, spend, regain, ◌>>=◌, ◌>>◌,
}
use rocket.Bus.{m68k_peek_word}
use rocket.Exception.{m68k_exception, m68k_write_16, m68k_write_size}
use rocket.Ea.{M68kEa, zero_ea, ea_step, ea_cycles, m68k_calc_ea, m68k_calc_ea_addr}
use rocket.Flags.{msb, is_zero}
use rocket.Decode.{reg_field, opmode_field, mode_field, ea_reg_field, merge_d}

-- The destination, and the value that its address register takes after the write, if any.
unfoldable pub move_destination : ℕ → ℕ → M68kSize → M (M68kEa × Option ℕ)
move_destination mode reg size =
    if mode == 3
    then (do
      spend (ea_cycles mode reg size)
      address ← gets (λ c. c.a_regs reg)
      pure (record zero_ea { address = address }, some (add32 address (ea_step reg size))))
    else if mode == 4
    then (do
      spend (ea_cycles mode reg size)
      address ← gets (λ c. sub32 (c.a_regs reg) (ea_step reg size))
      let ea = record zero_ea { address = address }
      if is_long size then pure (ea, some address) else (do set_a reg address; pure (ea, none)))
    else (do ea ← m68k_calc_ea_addr mode reg size; pure (ea, none))

-- `if (negative) flags |= N; if (zero) flags |= Z`.
abbrev pub sign_flags : Bool → Bool → ℕ
sign_flags negative zero = bit_or (if negative then 8 else 0) (if zero then 4 else 0)

-- `full_flags`.
unfoldable pub move_flags : M68kSize → ℕ → ℕ
move_flags size value = sign_flags (msb size value) (is_zero size value)

-- `(cpu->sr & ~ccr_mask) | flags`: X stays.
abbrev pub with_flags : ℕ → ℕ → ℕ
with_flags flags sr = bit_or (bit_and sr 0xFFF0) flags

-- The condition codes that a faulted long write shows.
unfoldable pub move_fault_flags : ℕ → ℕ → Bool → ℕ → ℕ → ℕ
move_fault_flags dest_mode dest_reg src_reg_imm value sr =
    let old_flags = bit_and sr 0xF in
    let abs_long_dest = dest_mode == 7 && dest_reg == 1 in
    if dest_mode == 2 || dest_mode == 3 || abs_long_dest && not src_reg_imm
    then (if src_reg_imm
        then old_flags
        else sign_flags (test_bit 15 value) (low_bits value 16 == 0))
    else if (dest_mode == 5 || dest_mode == 6) && src_reg_imm
    then bit_or (bit_and old_flags 0x3) (sign_flags (test_bit 31 value) (shr value 16 == 0))
    else move_flags size_long value

-- A predecrement long write goes low word first.
unfoldable pub write_long_downward : ℕ → ℕ → M ⊤
write_long_downward address value = do
  m68k_write_16 (add32 address 2) (u16 value)
  m68k_write_16 address (u16 (shr value 16))

-- The write proper; a refunded cost is spent again after it.
unfoldable pub move_write : ℕ → M68kEa → Option ℕ → M68kSize → ℕ → ℕ → ℕ → M ⊤
move_write opcode dest_ea commit size value pc_after_src fault_refund = do
  let dest_mode = opmode_field opcode
  let dest_reg = reg_field opcode
  if dest_mode == 4 && is_long size
      then (do
        write_long_downward dest_ea.address value
        spend fault_refund
        set_a dest_reg dest_ea.address
        modify_sr (with_flags (move_flags size value)))
      else (do
        when (dest_mode == 4 && test_bit 0 dest_ea.address) (do
          word ← m68k_peek_word pc_after_src
          modify (λ c. record c { fault_bus_word = word; fault_bus_word_valid = true }))
        m68k_write_size dest_ea.address value size
        spend fault_refund
        modify (λ c. record c { fault_bus_word_valid = false })
        elim commit [ none ↦ pure tt | some v ↦ set_a dest_reg v ]
        when (is_long size) (modify_sr (with_flags (move_flags size value))))

-- What a fault of the write would show, and the write.
unfoldable pub move_to_memory : ℕ → M68kEa → Option ℕ → M68kSize → ℕ → ℕ → M ⊤
move_to_memory opcode dest_ea commit size value pc_after_src = do
  let dest_mode = opmode_field opcode
  let dest_reg = reg_field opcode
  let src_mode = mode_field opcode
  let src_reg_imm = leb src_mode 1 || src_mode == 7 && ea_reg_field opcode == 4
  let abs_long_dest = dest_mode == 7 && dest_reg == 1
  let ahead = (if abs_long_dest && leb src_mode 1 then 2 else 0)
  modify (λ c. record c { fault_pc = add32 (add32 pc_after_src 2) ahead; fault_pc_valid = true })
  modify_sr (λ sr.
      with_flags
        (if is_long size
          then move_fault_flags dest_mode dest_reg src_reg_imm value sr
          else move_flags size value)
        sr)
  let share = (if is_long size then (if dest_mode == 4 then 2 else 4) else 0)
  let fault_refund = share + (if abs_long_dest && not src_reg_imm then 4 else 0)
  regain fault_refund
  when (dest_mode == 4 && not (is_long size)) (spend 2)
  move_write opcode dest_ea commit size value pc_after_src fault_refund

-- `switch (size_bits)` of MOVE.
abbrev pub with_move_size : ℕ → (M68kSize → M ⊤) → M ⊤
with_move_size code body =
    if code == 1
    then body size_byte
    else if code == 3
    then body size_word
    else if code == 2
    then body size_long
    else pure tt

unfoldable pub move_sized : ℕ → M68kSize → M ⊤
move_sized opcode size = do
  let dest_mode = opmode_field opcode
  let dest_reg = reg_field opcode
  if dest_mode == 7 && ltb 1 dest_reg || dest_mode == 1 && is_byte size
      then m68k_exception 4
      else (do
        src_ea ← m68k_calc_ea (mode_field opcode) (ea_reg_field opcode) size
        pc_after_src ← gets (λ c. c.pc)
        (dest_ea, commit) ← move_destination dest_mode dest_reg size
        let value = src_ea.value
        if dest_ea.is_reg && not dest_ea.is_addr
            then (do
              merge_d dest_ea.reg_num value size
              modify_sr (with_flags (move_flags size value)))
            else if dest_ea.is_reg && dest_ea.is_addr
            then set_a dest_ea.reg_num (elim size [ size_word ↦ sext16 value | _ ↦ value ])
            else move_to_memory opcode dest_ea commit size value pc_after_src)

unfoldable pub exec_move : ℕ → M ⊤
exec_move opcode = with_move_size (low_bits (shr opcode 12) 2) (move_sized opcode)
