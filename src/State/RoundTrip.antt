-- ===== src/State/RoundTrip.antt =====
-- Restoring what was saved (src/m68k/m68k.c: `m68k_serialize`, `m68k_deserialize`).
use rocket.Base.{
  ℕ, zero, suc, ◌+◌, ◌*◌, ◌^◌, ◌<◌, ◌≤◌, ◌≡◌, ◌∙◌, refl, ap, ℤ, pos_part, neg_part, Bool, true,
  false, not, inl, inr, Bool-cases, List, [], ◌∷◌, ◌++◌, none, some, arith, length, drop, ◌==◌, ltb,
  if◌then◌else◌, fun_ext, shr, u8, bit_or_fields,
}
use rocket.Bus.Memory.{join_long}
use rocket.Cpu.{M68kCpu, M68kModel, model_68000, model_68010}
use rocket.State.Bytes.{
  state_put_16, state_put_32, state_get_16, state_get_32, tag_dregs, tag_aregs, tag_pc, tag_sr,
  tag_usp, tag_ssp, tag_vbr, tag_sfc, tag_dfc, tag_flags, tag_decode, tag_cycles, tag_model,
}
use rocket.State.Save.{
  put_registers, flag_byte, u32_of_int, model_number, state_header, long_field, state_registers,
  state_control, flags_field, state_progress, state_bytes, state_need, m68k_serialize,
}
use rocket.State.Restore.{
  get_registers, int_of_u32, restore_model, restore_flags, restore_field, clear_latches,
  m68k_deserialize,
}
use rocket.State.Fields.{Field, encode, apply_fields}
use rocket.State.Accept.{settled, m68k_deserialize-encode}

state_get_32-put : (v : ℕ) (rest : List ℕ) → v < 2 ^ 32 → state_get_32 (state_put_32 v ++ rest) ≡ v
unfolding state_get_32 state_put_32
state_get_32-put v rest h =
    join_long (u8 (shr v 24)) (u8 (shr v 16)) (u8 (shr v 8)) (u8 v) (omega arith) (omega arith)
      (omega arith)
    ∙ omega arith

state_get_16-put : (v : ℕ) (rest : List ℕ) → v < 2 ^ 16 → state_get_16 (state_put_16 v ++ rest) ≡ v
unfolding state_get_16 state_put_16
state_get_16-put v rest h = bit_or_fields 8 (u8 (shr v 8)) (u8 v) (omega arith) ∙ omega arith

-- Word `i` of the block of registers `k` to `k + n - 1`.
register_word :
    (regs : ℕ → ℕ) (k i n : ℕ)
    → i < n
    → regs (k + i) < 2 ^ 32
    → state_get_32 (drop (i * 4) (put_registers regs k n)) ≡ regs (k + i)
unfolding put_registers state_put_32
register_word regs k i zero h fits = absurd (omega arith)
register_word regs k zero (suc n) h fits =
    let e : k + 0 ≡ k = omega arith in
    rw e (state_get_32-put (regs k) (put_registers regs (suc k) n) (rw e at fits))
register_word regs k (suc i) (suc n) h fits =
    let e : k + suc i ≡ suc k + i = omega arith in
    let skip : suc i * 4 ≡ suc (suc (suc (suc (i * 4)))) = omega arith in
    rw (skip, e) (register_word regs (suc k) i n (omega arith) (rw e at fits))

get_registers-put :
    (regs old : ℕ → ℕ)
    → ((i : ℕ) → i < 8 → regs i < 2 ^ 32)
    → get_registers (put_registers regs 0 8) old ≡ (λ i. if ltb i 8 then regs i else old i)
unfolding get_registers
get_registers-put regs old fits = fun_ext (λ i. elim (Bool-cases (ltb i 8)) [
  | inl low ↦
      let lt : i < 8 = ground arith in
      let e : 0 + i ≡ i = omega arith in
      rw low (register_word regs 0 i 8 lt (rw e (fits i lt)) ∙ ap regs e)
  | inr high ↦ rw high refl
])

flag_byte-set : (b : Bool) → not (flag_byte b == 0) ≡ b
flag_byte-set true = refl
flag_byte-set false = refl

restore_model-put :
    (m : M68kModel) (c : M68kCpu)
    → restore_model (state_put_32 (model_number m)) c ≡ some (record c { model = m })
unfolding restore_model state_get_32 state_put_32
restore_model-put model_68000 c = refl
restore_model-put model_68010 c = refl

-- A C `int` of 32 bits.
abbrev pub IsInt : ℤ → Type 0
IsInt z = (pos_part z < 2 ^ 31) × (neg_part z ≤ 2 ^ 31)

int_of_u32-lem : (z : ℤ) → IsInt z → int_of_u32 (u32_of_int z) ≡ z
int_of_u32-lem z h = ground arith

-- The members of the types u16, u32 and int are within them, but for the interrupt level, on which
-- nothing is asked.
pub record IsTyped (c : M68kCpu) : Type 0 where
  pub d_regs : (i : ℕ) → i < 8 → c.d_regs i < 2 ^ 32
  pub a_regs : (i : ℕ) → i < 8 → c.a_regs i < 2 ^ 32
  pub pc : c.pc < 2 ^ 32
  pub ppc : c.ppc < 2 ^ 32
  pub sr : c.sr < 2 ^ 16
  pub ir : c.ir < 2 ^ 16
  pub usp : c.usp < 2 ^ 32
  pub ssp : c.ssp < 2 ^ 32
  pub vbr : c.vbr < 2 ^ 32
  pub sfc : c.sfc < 2 ^ 32
  pub dfc : c.dfc < 2 ^ 32
  pub target_cycles : IsInt c.target_cycles
  pub cycles_remaining : IsInt c.cycles_remaining

-- The fields that are saved.
abbrev saved_fields : M68kCpu → List Field
saved_fields c =
    (tag_dregs, put_registers c.d_regs 0 8)
    ∷ (tag_aregs, put_registers c.a_regs 0 8)
    ∷ (tag_pc, state_put_32 c.pc)
    ∷ (tag_sr, state_put_16 c.sr)
    ∷ (tag_usp, state_put_32 c.usp)
    ∷ (tag_ssp, state_put_32 c.ssp)
    ∷ (tag_vbr, state_put_32 c.vbr)
    ∷ (tag_sfc, state_put_32 c.sfc)
    ∷ (tag_dfc, state_put_32 c.dfc)
    ∷ (
      tag_flags,
      flag_byte c.stopped
          ∷ u8 c.irq_level
          ∷ flag_byte c.nmi_pending
          ∷ flag_byte c.trace_pending
          ∷ [],
    )
    ∷ (tag_decode, state_put_16 c.ir ++ state_put_32 c.ppc)
    ∷ (
      tag_cycles,
      state_put_32 (u32_of_int c.target_cycles) ++ state_put_32 (u32_of_int c.cycles_remaining),
    )
    ∷ (tag_model, state_put_32 (model_number c.model))
    ∷ []

state_bytes-encode : (c : M68kCpu) → state_bytes c ≡ state_header ++ encode (saved_fields c)
unfolding state_bytes state_registers state_control state_progress flags_field long_field
    put_registers state_put_32 state_put_16
state_bytes-encode c = refl

-- The context `d` with what a save state of `c` holds, the low byte of the interrupt level
-- included, and its fault latches clear.
abbrev pub restored : M68kCpu → M68kCpu → M68kCpu
restored c d = record d {
  d_regs = λ i. if ltb i 8 then c.d_regs i else d.d_regs i;
  a_regs = λ i. if ltb i 8 then c.a_regs i else d.a_regs i;
  pc = c.pc;
  sr = c.sr;
  usp = c.usp;
  ssp = c.ssp;
  vbr = c.vbr;
  sfc = c.sfc;
  dfc = c.dfc;
  stopped = c.stopped;
  irq_level = u8 c.irq_level;
  nmi_pending = c.nmi_pending;
  trace_pending = c.trace_pending;
  ir = c.ir;
  ppc = c.ppc;
  target_cycles = c.target_cycles;
  cycles_remaining = c.cycles_remaining;
  model = c.model;
  exception_thrown = 0;
  fault_valid = false;
  fault_pc_valid = false;
  fault_bus_word_valid = false;
  operand_program_space = false;
  group0_fault = false;
  fault_trap_active = false;
  in_address_error = false;
  in_bus_error = false;
}

saved_fields-restored :
    (c d : M68kCpu) → IsTyped c → settled (apply_fields (saved_fields c) d) ≡ (true, restored c d)
unfolding restore_field restore_flags clear_latches put_registers state_put_32 state_put_16
saved_fields-restored c d t =
    let long = λ (v : ℕ) (h : v < 2 ^ 32). state_get_32-put v [] h in
    let target : u32_of_int c.target_cycles < 2 ^ 32 = omega arith in
    let remaining : u32_of_int c.cycles_remaining < 2 ^ 32 = omega arith in
    simp
      (
        get_registers-put c.d_regs d.d_regs t.d_regs,
        get_registers-put c.a_regs d.a_regs t.a_regs,
        long c.pc t.pc,
        state_get_16-put c.sr [] t.sr,
        long c.usp t.usp,
        long c.ssp t.ssp,
        long c.vbr t.vbr,
        long c.sfc t.sfc,
        long c.dfc t.dfc,
        flag_byte-set c.stopped,
        flag_byte-set c.nmi_pending,
        flag_byte-set c.trace_pending,
        state_get_16-put c.ir (state_put_32 c.ppc) t.ir,
        long c.ppc t.ppc,
        state_get_32-put _ (state_put_32 (u32_of_int c.cycles_remaining)) target,
        long _ remaining,
        int_of_u32-lem c.target_cycles t.target_cycles,
        int_of_u32-lem c.cycles_remaining t.cycles_remaining,
        restore_model-put,
      )
      refl

length-state_bytes : (c : M68kCpu) → length (state_bytes c) ≡ state_need
unfolding state_bytes state_header state_registers state_control state_progress flags_field
    long_field put_registers state_put_32 state_put_16 state_need
length-state_bytes c = refl

-- The size that a query with a null buffer answers is the number of bytes that a save writes and
-- reports, whatever the context; a smaller buffer gets no byte and the answer 0, so that no save
-- writes past its capacity.
pub m68k_serialize-size :
    (capacity : ℕ) (c d : M68kCpu)
    → let need = (m68k_serialize none d).0 in
      let (written, bytes) = m68k_serialize (some capacity) c in
      (written ≡ length bytes)
      × (written ≤ capacity)
      × (written ≡ (if ltb capacity need then 0 else need))
unfolding m68k_serialize
m68k_serialize-size capacity c d =
    let e = length-state_bytes c in (ground arith, ground (arith, e), ground (arith, e))

-- A context whose registers and cycle counters are within their C types, with any interrupt level
-- from 0 up, saved to a buffer that is large enough and restored over any other context: the answer
-- is true; the eight data and eight address registers, PC, PPC, SR, IR, both stack pointers, VBR,
-- SFC, DFC, the stop, interrupt and trace latches, the cycle counters and the model are those
-- saved, and the interrupt level is the low byte of the one saved, which is the same level only
-- below 256. The fault latches are clear, and all else, the memory binding included, is the other
-- context's.
pub m68k_deserialize-m68k_serialize :
    (capacity : ℕ) (c d : M68kCpu)
    → (m68k_serialize none c).0 ≤ capacity
    → IsTyped c
    → m68k_deserialize (some (m68k_serialize (some capacity) c).1) d ≡ some (true, restored c d)
unfolding m68k_serialize
m68k_deserialize-m68k_serialize capacity c d h t =
    let large : ltb capacity state_need ≡ false = ground arith in
    rw (large, state_bytes-encode c)
      (m68k_deserialize-encode (saved_fields c) d
        ∙ ap (λ (r : Bool × M68kCpu). some r) (saved_fields-restored c d t))
