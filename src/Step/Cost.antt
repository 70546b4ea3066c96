-- ===== src/Step/Cost.antt =====
-- Base costs of the decoder, and the shapes that its branches share.
use rocket.Base.{ℕ, Bool, ◌&&◌, ◌||◌, Option, none, some, ⊤, ◌==◌, leb, if◌then◌else◌, bit_and}
use rocket.Cpu.{
  M68kSize, size_byte, size_word, size_long, is_long, is_68010, M, pure, gets, ◌>>=◌, ◌>>◌,
}
use rocket.Exception.{m68k_exception}
use rocket.Decode.{mode_field, size_field}

-- `(opcode & 0x38) == 0`.
abbrev pub register_dest : ℕ → Bool
register_dest opcode = bit_and opcode 0x38 == 0

unfoldable pub imm_alu_cycles : ℕ → ℕ
imm_alu_cycles opcode =
    let long = size_field opcode == 2 in
    if register_dest opcode then (if long then 8 else 4) else (if long then 12 else 8)

unfoldable pub alu_base_cycles : ℕ → M68kSize → ℕ → ℕ → ℕ
alu_base_cycles dir size ea_mode ea_reg =
    if dir == 0
    then (if is_long size
        then (if leb ea_mode 1 || ea_mode == 7 && ea_reg == 4 then 8 else 6)
        else 4)
    else if ea_mode == 0
    then (if is_long size then 8 else 4)
    else (if is_long size then 12 else 8)

-- The size of an operation mode, as the decoder reads it.
unfoldable pub alu_size : ℕ → M68kSize
alu_size opmode =
    if leb opmode 2
    then (if opmode == 0 then size_byte else if opmode == 1 then size_word else size_long)
    else if opmode == 4
    then size_byte
    else if opmode == 5
    then size_word
    else size_long

-- NEGX, CLR, NEG and NOT.
unfoldable pub unary_cycles : ℕ → ℕ
unary_cycles opcode =
    let long = size_field opcode == 2 in
    if mode_field opcode == 0 then (if long then 6 else 4) else (if long then 12 else 8)

-- `handler; cycles = n; goto done`.
abbrev pub run : M ⊤ → ℕ → M (Option ℕ)
run handler n = do handler; pure (some n)

abbrev pub illegal : M (Option ℕ)
illegal = run (m68k_exception 4) 34

-- An instruction of the later family member.
abbrev pub on_68010 : M ⊤ → ℕ → M (Option ℕ)
on_68010 handler n = do
  later ← gets (λ c. is_68010 c.model)
  if later then run handler n else illegal

-- The branches of the first, or where none of them applies those of the second.
abbrev pub or_next : M (Option ℕ) → M (Option ℕ) → M (Option ℕ)
or_next first second = do cost ← first; elim cost [ some n ↦ pure (some n) | none ↦ second ]
