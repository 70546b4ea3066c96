-- ===== src/Exception/Guards.antt =====
-- The guards of exception processing: the two re-entry flags and the nesting depth. What a
-- well-behaved host leaves alone, and how every access and exception ends.
use rocket.Base.{ℕ, ◌+◌, ◌≡◌, ℤ, Bool, some, if◌then◌else◌, arith}
use rocket.Cpu.{
  M68kCpu, M68kSize, Host, no_host, Outcome, ok, longjmp, out_of_fuel, M, ◌>>=◌, proceed,
}

abbrev pub SameGuards : M68kCpu → M68kCpu → Type 0
SameGuards c c' =
    (c'.in_address_error ≡ c.in_address_error)
    × (c'.in_bus_error ≡ c.in_bus_error)
    × (c'.exception_depth ≡ c.exception_depth)

-- How many of the two flags are clear.
abbrev pub clear_flags : M68kCpu → ℕ
clear_flags c = (if c.in_address_error then 0 else 1) + (if c.in_bus_error then 0 else 1)

-- No callback that runs during an access or an exception touches the guards.
pub record IsPolite (h : Host) : Type 0 where
  pub wait_bus :
      (f : ℕ → M68kSize → Bool → M68kCpu → ℤ × M68kCpu)
      → h.wait_bus ≡ some f
      → (a : ℕ) (s : M68kSize) (w : Bool) (c : M68kCpu) → SameGuards c (f a s w c).1
  pub fc_cb :
      (f : ℕ → M68kCpu → M68kCpu)
      → h.fc_cb ≡ some f
      → (fc : ℕ) (c : M68kCpu) → SameGuards c (f fc c)
  pub pc_changed_cb :
      (f : ℕ → M68kCpu → M68kCpu)
      → h.pc_changed_cb ≡ some f
      → (pc : ℕ) (c : M68kCpu) → SameGuards c (f pc c)
  pub illg_cb :
      (f : ℕ → M68kCpu → ℕ × M68kCpu)
      → h.illg_cb ≡ some f
      → (ir : ℕ) (c : M68kCpu) → SameGuards c (f ir c).1
  pub read8_cb :
      (f : ℕ → M68kCpu → ℕ × M68kCpu)
      → h.read8_cb ≡ some f
      → (a : ℕ) (c : M68kCpu) → SameGuards c (f a c).1
  pub read16_cb :
      (f : ℕ → M68kCpu → ℕ × M68kCpu)
      → h.read16_cb ≡ some f
      → (a : ℕ) (c : M68kCpu) → SameGuards c (f a c).1
  pub read32_cb :
      (f : ℕ → M68kCpu → ℕ × M68kCpu)
      → h.read32_cb ≡ some f
      → (a : ℕ) (c : M68kCpu) → SameGuards c (f a c).1
  pub write8_cb :
      (f : ℕ → ℕ → M68kCpu → M68kCpu)
      → h.write8_cb ≡ some f
      → (a v : ℕ) (c : M68kCpu) → SameGuards c (f a v c)
  pub write16_cb :
      (f : ℕ → ℕ → M68kCpu → M68kCpu)
      → h.write16_cb ≡ some f
      → (a v : ℕ) (c : M68kCpu) → SameGuards c (f a v c)
  pub write32_cb :
      (f : ℕ → ℕ → M68kCpu → M68kCpu)
      → h.write32_cb ≡ some f
      → (a v : ℕ) (c : M68kCpu) → SameGuards c (f a v c)

-- A host without callbacks is one.
pub no_host-IsPolite : IsPolite no_host
no_host-IsPolite = record {
  wait_bus = λ f e a s w c. ground arith;
  fc_cb = λ f e fc c. ground arith;
  pc_changed_cb = λ f e pc c. ground arith;
  illg_cb = λ f e ir c. ground arith;
  read8_cb = λ f e a c. ground arith;
  read16_cb = λ f e a c. ground arith;
  read32_cb = λ f e a c. ground arith;
  write8_cb = λ f e a v c. ground arith;
  write16_cb = λ f e a v c. ground arith;
  write32_cb = λ f e a v c. ground arith;
}

-- A call that began at `c` returned with the guards as they were, or jumped to the trap from
-- outside exception processing; it did not run out of fuel.
abbrev pub Settles : {A : Type 0} → M68kCpu → Outcome A × M68kCpu → Type 0
Settles c (ok a, c') = SameGuards c c'
Settles c (longjmp, c') = c.exception_depth ≡ 0
Settles c (out_of_fuel, c') = ⊥

pub Settles-bind :
    {A B : Type 0} (h : Host) (c : M68kCpu) (m : M A) (f : A → M B)
    → Settles c (m h c)
    → ((a : A) (c' : M68kCpu) → SameGuards c c' → Settles c' (f a h c'))
    → Settles c ((m >>= f) h c)
Settles-bind {A} {B} h c m f first rest = go (m h c) first
  where
    transfer :
        (c' : M68kCpu) (r : Outcome B × M68kCpu) → SameGuards c c' → Settles c' r → Settles c r
    transfer c' (ok b, c'') s t = ground arith
    transfer c' (longjmp, c'') s t = ground arith
    transfer c' (out_of_fuel, c'') s t = t

    go : (r : Outcome A × M68kCpu) → Settles c r → Settles c (proceed r.0 f h r.1)
    go (ok a, c') s = transfer c' (f a h c') s (rest a c' s)
    go (longjmp, c') s = s
    go (out_of_fuel, c') s = s
