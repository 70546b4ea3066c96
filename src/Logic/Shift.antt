-- ===== src/Logic/Shift.antt =====
-- The shifts and rotations (src/m68k/ops_logic.c: `m68k_exec_shift`).
use rocket.Base.{
  ℕ, zero, suc, ◌^◌, Bool, true, false, ◌&&◌, ◌||◌, ⊤, ◌==◌, ltb, if◌then◌else◌, bit_and, bit_or,
  shl, shr, low_bits, test_bit,
}
use rocket.Cpu.{
  M68kSize, size_byte, size_word, size_long, size_bits, size_msb, sr_c, sr_v, sr_z, sr_n, sr_x, M,
  pure, gets, modify_sr, ◌>>=◌, ◌>>◌,
}
use rocket.Exception.{m68k_exception, m68k_write_size}
use rocket.Ea.{m68k_calc_ea}
use rocket.Flags.{raise_if, msb}
use rocket.Decode.{reg_field, mode_field, ea_reg_field, size_field, merge_d}

-- The variables of the loops.
pub record Shifter : Type 0 where
  pub result : ℕ
  pub carry : Bool
  pub overflow : Bool
  pub extend : Bool

-- `type` 0 to 3 and `dr`: arithmetic, logical, rotation with extend and rotation.
pub data ShiftKind : Type 0 where
  asr asl lsr lsl roxr roxl ror rol : ShiftKind

abbrev pub shift_kind : ℕ → Bool → ShiftKind
shift_kind kind left =
    if kind == 0
    then (if left then asl else asr)
    else if kind == 1
    then (if left then lsl else lsr)
    else if kind == 2
    then (if left then roxl else roxr)
    else (if left then rol else ror)

-- `if (b) x |= m`.
abbrev pub or_if : Bool → ℕ → ℕ → ℕ
or_if b m x = if b then bit_or x m else x

-- `(x << 1) & mask`.
abbrev pub double : M68kSize → ℕ → ℕ
double size x = low_bits (shl x 1) (size_bits size)

abbrev pub msb_mask : M68kSize → ℕ
msb_mask size = 2 ^ size_msb size

-- One round of the loop of each kind.
unfoldable pub shift_round : ShiftKind → M68kSize → Shifter → Shifter
shift_round asr size s = record s {
  result = bit_or (shr s.result 1) (bit_and s.result (msb_mask size));
  carry = test_bit 0 s.result;
}
shift_round asl size s = record s {
  result = double size s.result;
  carry = msb size s.result;
  overflow =
      (if msb size s.result
        then (if msb size (double size s.result) then s.overflow else true)
        else (if msb size (double size s.result) then true else s.overflow));
}
shift_round lsr size s = record s { result = shr s.result 1; carry = test_bit 0 s.result }
shift_round lsl size s = record s { result = double size s.result; carry = msb size s.result }
shift_round roxr size s = record s {
  result = or_if s.extend (msb_mask size) (shr s.result 1);
  extend = test_bit 0 s.result;
  carry = test_bit 0 s.result;
}
shift_round roxl size s = record s {
  result = or_if s.extend 1 (double size s.result);
  extend = msb size s.result;
  carry = msb size s.result;
}
shift_round ror size s = record s {
  result = or_if (test_bit 0 s.result) (msb_mask size) (shr s.result 1);
  carry = test_bit 0 s.result;
}
shift_round rol size s = record s {
  result = or_if (msb size s.result) 1 (double size s.result);
  carry = msb size s.result;
}

unfoldable pub shift_rounds : ℕ → ShiftKind → M68kSize → Shifter → Shifter
shift_rounds zero kind size s = s
shift_rounds (suc count) kind size s = shift_rounds count kind size (shift_round kind size s)

abbrev pub start : ℕ → Bool → Shifter
start value extend = record { result = value; carry = false; overflow = false; extend = extend }

-- C, X and V of each kind; a rotation keeps X.
unfoldable pub shift_carries : ShiftKind → Shifter → ℕ → ℕ
shift_carries asr s sr = raise_if s.carry sr_x (raise_if s.carry sr_c (bit_and sr 0xFFE0))
shift_carries asl s sr =
    raise_if s.overflow sr_v (raise_if s.carry sr_x (raise_if s.carry sr_c (bit_and sr 0xFFE0)))
shift_carries lsr s sr = raise_if s.carry sr_x (raise_if s.carry sr_c (bit_and sr 0xFFE0))
shift_carries lsl s sr = raise_if s.carry sr_x (raise_if s.carry sr_c (bit_and sr 0xFFE0))
shift_carries roxr s sr = raise_if s.extend sr_x (raise_if s.carry sr_c (bit_and sr 0xFFE0))
shift_carries roxl s sr = raise_if s.extend sr_x (raise_if s.carry sr_c (bit_and sr 0xFFE0))
shift_carries ror s sr = raise_if s.carry sr_c (bit_and sr 0xFFF0)
shift_carries rol s sr = raise_if s.carry sr_c (bit_and sr 0xFFF0)

unfoldable pub flags_shift : ShiftKind → M68kSize → Shifter → ℕ → ℕ
flags_shift kind size s sr =
    raise_if (s.result == 0) sr_z (raise_if (msb size s.result) sr_n (shift_carries kind s sr))

abbrev pub is_extended : ShiftKind → Bool
is_extended roxr = true
is_extended roxl = true
is_extended _ = false

-- A register count of zero changes no bit; C is then X for a rotation with extend.
unfoldable pub flags_no_shift : ShiftKind → M68kSize → ℕ → ℕ → ℕ
flags_no_shift kind size value sr =
    raise_if (is_extended kind && test_bit sr_x sr) sr_c
      (raise_if (value == 0) sr_z (raise_if (msb size value) sr_n (bit_and sr 0xFFF0)))

unfoldable pub shift_memory : ℕ → M ⊤
shift_memory opcode = do
  let kind = shift_kind (low_bits (shr opcode 9) 2) (test_bit 8 opcode)
  let mode = mode_field opcode
  let reg = ea_reg_field opcode
  if ltb mode 2 || mode == 7 && ltb 1 reg then m68k_exception 4 else (do
    ea ← m68k_calc_ea mode reg size_word
    x ← gets (λ c. test_bit sr_x c.sr)
    let s = shift_rounds 1 kind size_word (start (low_bits ea.value 16) x)
    modify_sr (flags_shift kind size_word s)
    m68k_write_size ea.address s.result size_word)

-- The count: a register modulo 64, or 1 to 8.
unfoldable pub shift_count : ℕ → M ℕ
shift_count opcode =
    if test_bit 5 opcode
    then gets (λ c. low_bits (c.d_regs (reg_field opcode)) 6)
    else pure (if reg_field opcode == 0 then 8 else reg_field opcode)

abbrev pub shift_size : ℕ → M68kSize
shift_size code = if code == 0 then size_byte else if code == 1 then size_word else size_long

unfoldable pub shift_register : ℕ → M ⊤
shift_register opcode = do
  let kind = shift_kind (low_bits (shr opcode 3) 2) (test_bit 8 opcode)
  let size = shift_size (size_field opcode)
  let reg = ea_reg_field opcode
  count ← shift_count opcode
  value ← gets (λ c. low_bits (c.d_regs reg) (size_bits size))
  x ← gets (λ c. test_bit sr_x c.sr)
  let s = shift_rounds count kind size (start value x)
  if count == 0
      then modify_sr (flags_no_shift kind size value)
      else (do modify_sr (flags_shift kind size s); merge_d reg s.result size)

unfoldable pub exec_shift : ℕ → M ⊤
exec_shift opcode = if size_field opcode == 3 then shift_memory opcode else shift_register opcode
