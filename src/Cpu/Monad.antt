-- ===== src/Cpu/Monad.antt =====
-- The effect of a C function on the context: it reads the callbacks, changes the context in
-- place, and returns, or leaves by `longjmp(cpu->fault_trap, 1)`; what was written before a jump
-- stays written. `out_of_fuel` is no outcome of the code: it marks the end of the fuel that bounds
-- the nesting of exceptions (see Exception).
use rocket.Base.{ℕ, pos, ◌+ℤ◌, ◌-ℤ◌, Bool, ⊤, if◌then◌else◌, update}
use rocket.Cpu.State.{M68kCpu}
use rocket.Cpu.Callbacks.{Host}

pub data Outcome (A : Type 0) : Type 0 where
  ok : A → Outcome A
  longjmp : Outcome A
  out_of_fuel : Outcome A

abbrev pub M : Type 0 → Type 0
M A = Host → M68kCpu → Outcome A × M68kCpu

abbrev pub pure : {A : Type 0} → A → M A
pure a h c = (ok a, c)

-- What a call that ended so does next.
abbrev pub proceed : {A B : Type 0} → Outcome A → (A → M B) → M B
proceed (ok a) f h c = f a h c
proceed longjmp f h c = (longjmp, c)
proceed out_of_fuel f h c = (out_of_fuel, c)

infixl 5 ◌>>=◌ ◌>>◌
abbrev pub ◌>>=◌ : {A B : Type 0} → M A → (A → M B) → M B
◌>>=◌ m f h c = let (r, c') = m h c in proceed r f h c'

abbrev pub ◌>>◌ : {A B : Type 0} → M A → M B → M B
m >> k = m >>= λ _. k

abbrev pub gets : {A : Type 0} → (M68kCpu → A) → M A
gets f h c = (ok (f c), c)

abbrev pub modify : (M68kCpu → M68kCpu) → M ⊤
modify f h c = (ok tt, f c)

abbrev pub asks : {A : Type 0} → (Host → A) → M A
asks f h c = (ok (f h), c)

abbrev pub jump : {A : Type 0} → M A
jump h c = (longjmp, c)

abbrev pub when : Bool → M ⊤ → M ⊤
when b m = if b then m else pure tt

-- A call of a callback, with a result or with none.
abbrev pub call : {A : Type 0} → (M68kCpu → A × M68kCpu) → M A
call f h c = let (a, c') = f c in (ok a, c')

-- Assignments to single fields.
abbrev pub set_d : ℕ → ℕ → M ⊤
set_d i v = modify (λ c. record c { d_regs = update c.d_regs i v })

abbrev pub set_a : ℕ → ℕ → M ⊤
set_a i v = modify (λ c. record c { a_regs = update c.a_regs i v })

abbrev pub modify_sr : (ℕ → ℕ) → M ⊤
modify_sr f = modify (λ c. record c { sr = f c.sr })

-- `cpu->cycles_remaining -= n`.
abbrev pub spend : ℕ → M ⊤
spend n = modify (λ c. record c { cycles_remaining = c.cycles_remaining -ℤ pos n })

-- `cpu->cycles_remaining += n`.
abbrev pub regain : ℕ → M ⊤
regain n = modify (λ c. record c { cycles_remaining = c.cycles_remaining +ℤ pos n })

-- The end of the fuel.
abbrev pub exhausted : {A : Type 0} → M A
exhausted h c = (out_of_fuel, c)
