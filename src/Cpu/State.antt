-- ===== src/Cpu/State.antt =====
-- `M68kCpu` and the small types of include/m68k.h.
--
-- Words are native numbers below their width. The register files and the memory are functions of
-- an index; the code indexes registers below 8 only. `int` fields that count cycles are integers.
-- The callbacks stand in `Host`, the jump buffer in the monad's `longjmp` outcome. The memory
-- pointer is not null where `memory_size` is positive.
use rocket.Base.{ℕ, ℤ, Bool, true, false}

-- Operand size.
pub data M68kSize : Type 0 where
  size_byte size_word size_long : M68kSize

pub data M68kModel : Type 0 where
  model_68000 model_68010 : M68kModel

pub record M68kCpu : Type 0 where
  pub d_regs : ℕ → ℕ
  pub a_regs : ℕ → ℕ
  pub pc : ℕ
  pub ppc : ℕ
  pub sr : ℕ
  pub ir : ℕ
  pub memory : ℕ → ℕ
  pub memory_size : ℕ
  pub irq_level : ℕ
  pub nmi_pending : Bool
  pub usp : ℕ
  pub ssp : ℕ
  pub stopped : Bool
  pub trace_pending : Bool
  pub exception_thrown : ℕ
  pub exception_depth : ℕ
  pub in_address_error : Bool
  pub in_bus_error : Bool
  pub fault_address : ℕ
  pub fault_pc : ℕ
  pub fault_ir : ℕ
  pub fault_ssw : ℕ
  pub fault_program_access : Bool
  pub fault_valid : Bool
  pub fault_pc_valid : Bool
  pub fault_bus_word : ℕ
  pub fault_bus_word_valid : Bool
  pub operand_program_space : Bool
  pub group0_fault : Bool
  pub fault_trap_active : Bool
  pub model : M68kModel
  pub vbr : ℕ
  pub sfc : ℕ
  pub dfc : ℕ
  pub target_cycles : ℤ
  pub cycles_remaining : ℤ
  -- The state of the host behind the callbacks, which the code never looks at.
  pub host_state : ℕ

-- Bit numbers of the flags in SR: the masks of the header are `1 << k`.
abbrev pub sr_c : ℕ
sr_c = 0

abbrev pub sr_v : ℕ
sr_v = 1

abbrev pub sr_z : ℕ
sr_z = 2

abbrev pub sr_n : ℕ
sr_n = 3

abbrev pub sr_x : ℕ
sr_x = 4

abbrev pub sr_s : ℕ
sr_s = 13

-- The value of the enumerator, the operand's width in bits, and its top bit.
abbrev pub size_bytes : M68kSize → ℕ
size_bytes size_byte = 1
size_bytes size_word = 2
size_bytes size_long = 4

abbrev pub size_bits : M68kSize → ℕ
size_bits size_byte = 8
size_bits size_word = 16
size_bits size_long = 32

abbrev pub size_msb : M68kSize → ℕ
size_msb size_byte = 7
size_msb size_word = 15
size_msb size_long = 31

abbrev pub is_long : M68kSize → Bool
is_long size_long = true
is_long _ = false

abbrev pub is_byte : M68kSize → Bool
is_byte size_byte = true
is_byte _ = false

-- `cpu->model >= M68K_MODEL_68010`.
abbrev pub is_68010 : M68kModel → Bool
is_68010 model_68000 = false
is_68010 model_68010 = true

-- A context of zeros, as `memset` leaves it.
abbrev pub zero_cpu : M68kCpu
zero_cpu = record {
  d_regs = λ i. 0;
  a_regs = λ i. 0;
  pc = 0;
  ppc = 0;
  sr = 0;
  ir = 0;
  memory = λ a. 0;
  memory_size = 0;
  irq_level = 0;
  nmi_pending = false;
  usp = 0;
  ssp = 0;
  stopped = false;
  trace_pending = false;
  exception_thrown = 0;
  exception_depth = 0;
  in_address_error = false;
  in_bus_error = false;
  fault_address = 0;
  fault_pc = 0;
  fault_ir = 0;
  fault_ssw = 0;
  fault_program_access = false;
  fault_valid = false;
  fault_pc_valid = false;
  fault_bus_word = 0;
  fault_bus_word_valid = false;
  operand_program_space = false;
  group0_fault = false;
  fault_trap_active = false;
  model = model_68000;
  vbr = 0;
  sfc = 0;
  dfc = 0;
  target_cycles = ℤ.pos 0;
  cycles_remaining = ℤ.pos 0;
  host_state = 0;
}
