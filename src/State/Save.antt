-- ===== src/State/Save.antt =====
-- `m68k_serialize`.
use rocket.Base.{
  ℕ, zero, suc, ◌+◌, ◌*◌, ℤ, pos_part, neg_part, Bool, List, [], ◌∷◌, ◌++◌, Option, none, some,
  length, ltb, if◌then◌else◌, u8, sub32,
}
use rocket.Cpu.{M68kCpu, M68kModel, model_68000, model_68010}
use rocket.State.Bytes.{
  state_put_16, state_put_32, state_field, state_version, tag_dregs, tag_aregs, tag_pc, tag_sr,
  tag_usp, tag_ssp, tag_vbr, tag_sfc, tag_dfc, tag_flags, tag_decode, tag_cycles, tag_model,
}

-- `for (int i = 0; i < 8; i++) state_put_32(p, regs[i].l)`, with `i` and the rounds left.
unfoldable pub put_registers : (ℕ → ℕ) → ℕ → ℕ → List ℕ
put_registers regs i zero = []
put_registers regs i (suc n) = state_put_32 (regs i) ++ put_registers regs (suc i) n

abbrev pub flag_byte : Bool → ℕ
flag_byte b = if b then 1 else 0

-- `(u32)` of an `int`.
abbrev pub u32_of_int : ℤ → ℕ
u32_of_int z = sub32 (pos_part z) (neg_part z)

abbrev pub model_number : M68kModel → ℕ
model_number model_68000 = 0
model_number model_68010 = 1

unfoldable pub state_header : List ℕ
state_header = 0x52 ∷ 0x36 ∷ 0x38 ∷ 0x53 ∷ state_put_16 state_version ++ state_put_16 0

unfoldable pub long_field : ℕ → ℕ → List ℕ
long_field tag v = state_field tag 4 ++ state_put_32 v

-- The fields in the order of the source, and what follows the header.
unfoldable pub state_registers : M68kCpu → List ℕ
state_registers c =
    (state_field tag_dregs 32 ++ put_registers c.d_regs 0 8)
    ++ (state_field tag_aregs 32 ++ put_registers c.a_regs 0 8)

unfoldable pub state_control : M68kCpu → List ℕ
state_control c =
    long_field tag_pc c.pc
    ++ ((state_field tag_sr 2 ++ state_put_16 c.sr)
        ++ (long_field tag_usp c.usp
            ++ (long_field tag_ssp c.ssp
                ++ (long_field tag_vbr c.vbr
                    ++ (long_field tag_sfc c.sfc ++ long_field tag_dfc c.dfc)))))

unfoldable pub flags_field : M68kCpu → List ℕ
flags_field c =
    state_field tag_flags 4
    ++ (flag_byte c.stopped
        ∷ u8 c.irq_level
        ∷ flag_byte c.nmi_pending
        ∷ flag_byte c.trace_pending
        ∷ [])

unfoldable pub state_progress : M68kCpu → List ℕ
state_progress c =
    flags_field c
    ++ ((state_field tag_decode 6 ++ (state_put_16 c.ir ++ state_put_32 c.ppc))
        ++ ((state_field tag_cycles 8
              ++ (state_put_32 (u32_of_int c.target_cycles)
                  ++ state_put_32 (u32_of_int c.cycles_remaining)))
            ++ long_field tag_model (model_number c.model)))

unfoldable pub state_bytes : M68kCpu → List ℕ
state_bytes c = state_header ++ (state_registers c ++ (state_control c ++ state_progress c))

-- `need`, as the source sums it.
unfoldable pub state_need : ℕ
state_need = 8 + (2 + 32) * 2 + (2 + 4) * 6 + (2 + 2) + (2 + 4) + (2 + 6) + (2 + 8) + (2 + 4)

-- The result, and the bytes that are written from the start of the buffer; `none` is a null
-- buffer, `some capacity` another.
unfoldable pub m68k_serialize : Option ℕ → M68kCpu → ℕ × List ℕ
m68k_serialize none c = (state_need, [])
m68k_serialize (some capacity) c =
    if ltb capacity state_need then (0, []) else (length (state_bytes c), state_bytes c)
