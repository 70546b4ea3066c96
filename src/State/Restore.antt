-- ===== src/State/Restore.antt =====
-- `m68k_deserialize`.
use rocket.Base.{
  ℕ, zero, suc, ◌*◌, ◌^◌, ℤ, signed_at, Bool, true, false, not, ◌||◌, List, [], ◌∷◌, Option, none,
  some, length, drop, get_or, and_then, ◌==◌, ltb, if◌then◌else◌,
}
use rocket.Cpu.{M68kCpu, model_68000, model_68010}
use rocket.State.Bytes.{
  state_get_16, state_get_32, state_version, tag_dregs, tag_aregs, tag_pc, tag_sr, tag_usp, tag_ssp,
  tag_vbr, tag_sfc, tag_dfc, tag_flags, tag_decode, tag_cycles, tag_model,
}

-- `for (int i = 0; i < 8; i++) regs[i].l = state_get_32(p + i * 4)`.
unfoldable pub get_registers : List ℕ → (ℕ → ℕ) → ℕ → ℕ
get_registers p regs i = if ltb i 8 then state_get_32 (drop (i * 4) p) else regs i

-- `(int)` of a u32.
abbrev pub int_of_u32 : ℕ → ℤ
int_of_u32 = signed_at (2 ^ 31)

-- A field of a fixed length; `none` is `return false`.
abbrev pub with_length : ℕ → ℕ → M68kCpu → Option M68kCpu
with_length len expected c = if len == expected then some c else none

unfoldable pub restore_model : List ℕ → M68kCpu → Option M68kCpu
restore_model p c =
    let model = state_get_32 p in
    if ltb 1 model
    then none
    else some (record c { model = (if model == 0 then model_68000 else model_68010) })

unfoldable pub restore_flags : List ℕ → M68kCpu → M68kCpu
restore_flags p c = record c {
  stopped = not (get_or p 0 0 == 0);
  irq_level = get_or p 1 0;
  nmi_pending = not (get_or p 2 0 == 0);
  trace_pending = not (get_or p 3 0 == 0);
}

-- `switch (tag)`.
unfoldable pub restore_field : ℕ → ℕ → List ℕ → M68kCpu → Option M68kCpu
restore_field tag len p c =
    if tag == tag_dregs
    then with_length len 32 (record c { d_regs = get_registers p c.d_regs })
    else if tag == tag_aregs
    then with_length len 32 (record c { a_regs = get_registers p c.a_regs })
    else if tag == tag_pc
    then with_length len 4 (record c { pc = state_get_32 p })
    else if tag == tag_sr
    then with_length len 2 (record c { sr = state_get_16 p })
    else if tag == tag_usp
    then with_length len 4 (record c { usp = state_get_32 p })
    else if tag == tag_ssp
    then with_length len 4 (record c { ssp = state_get_32 p })
    else if tag == tag_vbr
    then with_length len 4 (record c { vbr = state_get_32 p })
    else if tag == tag_sfc
    then with_length len 4 (record c { sfc = state_get_32 p })
    else if tag == tag_dfc
    then with_length len 4 (record c { dfc = state_get_32 p })
    else if tag == tag_flags
    then with_length len 4 (restore_flags p c)
    else if tag == tag_decode
    then with_length len 6 (record c { ir = state_get_16 p; ppc = state_get_32 (drop 2 p) })
    else if tag == tag_cycles
    then with_length len 8 (record c {
      target_cycles = int_of_u32 (state_get_32 p);
      cycles_remaining = int_of_u32 (state_get_32 (drop 4 p));
    })
    else if tag == tag_model
    then (if len == 4 then restore_model p c else none)
    else some c

-- Fault latches never restore as active.
unfoldable pub clear_latches : M68kCpu → M68kCpu
clear_latches c = record c {
  exception_thrown = 0;
  fault_valid = false;
  fault_pc_valid = false;
  fault_bus_word_valid = false;
  operand_program_space = false;
  group0_fault = false;
  fault_trap_active = false;
  in_address_error = false;
  in_bus_error = false;
}

-- `while (p < end)`, on fuel; `none` means that the fuel ran out. A call that returns false leaves
-- the context as the fields before have made it.
unfoldable pub restore_fields : ℕ → List ℕ → M68kCpu → Option (Bool × M68kCpu)
restore_fields fuel [] c = some (true, clear_latches c)
restore_fields zero (x ∷ xs) c = none
restore_fields (suc n) (x ∷ []) c = some (false, c)
restore_fields (suc n) (tag ∷ len ∷ p) c =
    if ltb (length p) len
    then some (false, c)
    else and_then (restore_field tag len p c) (some (false, c)) (restore_fields n (drop len p))

-- The tests of the header.
unfoldable pub bad_header : List ℕ → Bool
bad_header buffer =
    ltb (length buffer) 8
    || not (get_or buffer 0 0 == 0x52)
    || not (get_or buffer 1 0 == 0x36)
    || not (get_or buffer 2 0 == 0x38)
    || not (get_or buffer 3 0 == 0x53)
    || not (state_get_16 (drop 4 buffer) == state_version)

-- A null buffer is `none`; every round reads two bytes or more, so the length is enough fuel.
unfoldable pub m68k_deserialize : Option (List ℕ) → M68kCpu → Option (Bool × M68kCpu)
m68k_deserialize none c = some (false, c)
m68k_deserialize (some buffer) c =
    if bad_header buffer then some (false, c) else restore_fields (length buffer) (drop 8 buffer) c
