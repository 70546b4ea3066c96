-- ===== src/State/Tests.antt =====
-- A concrete context and concrete save states.
use rocket.Base.{
  ◌+◌, ◌≡◌, ◌≤◌, refl, pos, negsuc, Bool, true, false, List, [], ◌∷◌, ◌++◌, none, some, arith,
  length,
}
use rocket.Cpu.{M68kCpu, zero_cpu, model_68010}
use rocket.State.Save.{state_header, state_need, m68k_serialize}
use rocket.State.Restore.{
  restore_field, restore_fields, clear_latches, bad_header, m68k_deserialize,
}
use rocket.State.Fields.{Field, encode, apply_fields}
use rocket.State.Accept.{
  m68k_deserialize_total, m68k_deserialize-encode, m68k_deserialize-cut, m68k_deserialize-prefix,
}
use rocket.State.Bytes.{state_put_16, state_get_16, state_get_32}
use rocket.State.RoundTrip.{IsTyped, restored, m68k_serialize-size, m68k_deserialize-m68k_serialize}

abbrev sample : M68kCpu
sample = record zero_cpu {
  d_regs = λ i. i + 0x12345678;
  a_regs = λ i. i + 0xFFFF0000;
  pc = 0x1000;
  sr = 0x2704;
  stopped = true;
  irq_level = 3;
  model = model_68010;
  target_cycles = pos 100;
  cycles_remaining = negsuc 5;
}

-- A context that is bound to memory, with a latch that is active.
abbrev bound : M68kCpu
bound = record zero_cpu { memory_size = 0x800; fault_valid = true }

sample-IsTyped : IsTyped sample
sample-IsTyped = record {
  d_regs = λ i lt. omega arith;
  a_regs = λ i lt. omega arith;
  pc = omega arith;
  ppc = omega arith;
  sr = omega arith;
  ir = omega arith;
  usp = omega arith;
  ssp = omega arith;
  vbr = omega arith;
  sfc = omega arith;
  dfc = omega arith;
  target_cycles = (omega arith, omega arith);
  cycles_remaining = (omega arith, omega arith);
}

capacity : (m68k_serialize none sample).0 ≤ 200
unfolding m68k_serialize state_need
capacity = omega arith

m68k_deserialize-m68k_serialize_example :
    m68k_deserialize (some (m68k_serialize (some 200) sample).1) bound
    ≡ some (true, restored sample bound)
m68k_deserialize-m68k_serialize_example =
    m68k_deserialize-m68k_serialize 200 sample bound capacity sample-IsTyped

m68k_serialize-size_example :
    ((m68k_serialize (some 100) sample).0 ≡ length (m68k_serialize (some 100) sample).1)
    × ((m68k_serialize (some 100) sample).0 ≤ 100)
    × ((m68k_serialize (some 100) sample).0 ≡ 0)
unfolding m68k_serialize state_need
m68k_serialize-size_example = m68k_serialize-size 100 sample bound

-- A PC field, a field of a later version, and an SR field of a wrong length.
abbrev fields : List Field
fields = (3, 0 ∷ 0 ∷ 0x12 ∷ 0x34 ∷ []) ∷ (99, 1 ∷ []) ∷ (4, 1 ∷ []) ∷ []

m68k_deserialize-encode_example :
    m68k_deserialize (some (state_header ++ encode fields)) bound
    ≡ some (false, record bound { pc = 0x1234 })
unfolding restore_field state_get_32
m68k_deserialize-encode_example = m68k_deserialize-encode fields bound

m68k_deserialize_total_example :
    (r : Bool × M68kCpu) × (m68k_deserialize (some (7 ∷ 7 ∷ [])) bound ≡ some r)
m68k_deserialize_total_example = m68k_deserialize_total (some (7 ∷ 7 ∷ [])) bound

accepted :
    apply_fields ((3, 0 ∷ 0 ∷ 0x12 ∷ 0x34 ∷ []) ∷ []) bound ≡ (true, record bound { pc = 0x1234 })
unfolding restore_field state_get_32
accepted = refl

whole :
    m68k_deserialize (some (state_header ++ encode ((99, 1 ∷ []) ∷ []))) bound
    ≡ some (true, clear_latches bound)
unfolding m68k_deserialize bad_header restore_fields restore_field state_header state_put_16
    state_get_16
whole = refl

m68k_deserialize-cut_example :
    m68k_deserialize
      (some (state_header ++ (encode ((3, 0 ∷ 0 ∷ 0x12 ∷ 0x34 ∷ []) ∷ []) ++ 4 ∷ 2 ∷ 0x27 ∷ [])))
      bound
    ≡ some (false, record bound { pc = 0x1234 })
m68k_deserialize-cut_example =
    m68k_deserialize-cut ((3, 0 ∷ 0 ∷ 0x12 ∷ 0x34 ∷ []) ∷ []) (4 ∷ 2 ∷ 0x27 ∷ []) bound
      (record bound { pc = 0x1234 }) accepted (omega arith)

m68k_deserialize-prefix_example :
    (d : M68kCpu) × (m68k_deserialize (some (state_header ++ encode [])) bound ≡ some (true, d))
m68k_deserialize-prefix_example =
    m68k_deserialize-prefix [] ((99, 1 ∷ []) ∷ []) bound (clear_latches bound) whole
