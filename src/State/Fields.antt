-- ===== src/State/Fields.antt =====
-- A save state as a list of tagged fields (src/m68k/m68k.c: `m68k_deserialize`).
use rocket.Base.{
  ℕ, zero, suc, ◌+◌, ◌*◌, ◌<◌, ◌≤◌, ◌≡◌, refl, ap, Bool, true, false, inl, inr, Bool-cases, List,
  [], ◌∷◌, ◌++◌, arith, length, drop, get_or, and_then, ltb, fun_ext,
}
use rocket.Cpu.{M68kCpu}
use rocket.State.Bytes.{state_get_16, state_get_32}
use rocket.State.Restore.{restore_field, restore_model, restore_flags, get_registers}

-- A tag and the bytes of its field.
abbrev pub Field : Type 0
Field = ℕ × List ℕ

abbrev pub encode : List Field → List ℕ
encode [] = []
encode ((tag, p) ∷ fs) = tag ∷ length p ∷ p ++ encode fs

-- Restoring the fields one by one, up to the first that is refused.
abbrev pub apply_fields : List Field → M68kCpu → Bool × M68kCpu
apply_fields [] c = (true, c)
apply_fields ((tag, p) ∷ fs) c =
    and_then (restore_field tag (length p) p c) (false, c) (apply_fields fs)

get_or-append : (xs ys : List ℕ) (i d : ℕ) → i < length xs → get_or (xs ++ ys) i d ≡ get_or xs i d
get_or-append [] ys i d h = absurd (omega arith)
get_or-append (x ∷ xs) ys zero d h = refl
get_or-append (x ∷ xs) ys (suc i) d h = get_or-append xs ys i d (omega arith)

get_or-drop : (n : ℕ) (xs : List ℕ) (i d : ℕ) → get_or (drop n xs) i d ≡ get_or xs (n + i) d
get_or-drop zero xs i d = ap (λ (t : ℕ). get_or xs t d) (omega arith)
get_or-drop (suc n) [] i d = refl
get_or-drop (suc n) (x ∷ xs) i d =
    let e : suc n + i ≡ suc (n + i) = omega arith in rw e (get_or-drop n xs i d)

pub drop-append : (xs ys : List ℕ) → drop (length xs) (xs ++ ys) ≡ ys
drop-append [] ys = refl
drop-append (x ∷ xs) ys = drop-append xs ys

-- What follows a field is not read.
get_or-drop_append :
    (k : ℕ) (xs ys : List ℕ) (i d : ℕ)
    → k + i < length xs
    → get_or (drop k (xs ++ ys)) i d ≡ get_or (drop k xs) i d
get_or-drop_append k xs ys i d h =
    rw (get_or-drop k (xs ++ ys) i d, get_or-drop k xs i d) (get_or-append xs ys (k + i) d h)

pub state_get_32-append :
    (k : ℕ) (xs ys : List ℕ)
    → k + 4 ≤ length xs
    → state_get_32 (drop k (xs ++ ys)) ≡ state_get_32 (drop k xs)
unfolding state_get_32
state_get_32-append k xs ys h =
    let at = λ (i : ℕ) (lt : k + i < length xs). get_or-drop_append k xs ys i 0 lt in
    rw (at 0 (omega arith), at 1 (omega arith), at 2 (omega arith), at 3 (omega arith)) refl

state_get_16-append : (xs ys : List ℕ) → 2 ≤ length xs → state_get_16 (xs ++ ys) ≡ state_get_16 xs
unfolding state_get_16
state_get_16-append xs ys h =
    rw (get_or-append xs ys 0 0 (omega arith), get_or-append xs ys 1 0 (omega arith)) refl

pub get_registers-append :
    (xs ys : List ℕ) (regs : ℕ → ℕ)
    → 32 ≤ length xs
    → get_registers (xs ++ ys) regs ≡ get_registers xs regs
unfolding get_registers
get_registers-append xs ys regs h = fun_ext (λ i. elim (Bool-cases (ltb i 8)) [
  | inl low ↦ rw low (state_get_32-append (i * 4) xs ys (ground arith))
  | inr high ↦ rw high refl
])

restore_flags-append :
    (xs ys : List ℕ) (c : M68kCpu) → 4 ≤ length xs → restore_flags (xs ++ ys) c ≡ restore_flags xs c
unfolding restore_flags
restore_flags-append xs ys c h =
    let at = λ (i : ℕ) (lt : i < length xs). get_or-append xs ys i 0 lt in
    rw (at 0 (omega arith), at 1 (omega arith), at 2 (omega arith), at 3 (omega arith)) refl

pub restore_field-append :
    (tag : ℕ) (xs ys : List ℕ) (c : M68kCpu)
    → restore_field tag (length xs) (xs ++ ys) c ≡ restore_field tag (length xs) xs c
unfolding restore_field restore_model
restore_field-append tag xs ys c = ground (
  arith,
  get_registers-append xs ys c.d_regs,
  get_registers-append xs ys c.a_regs,
  state_get_32-append 0 xs ys,
  state_get_32-append 2 xs ys,
  state_get_32-append 4 xs ys,
  state_get_16-append xs ys,
  restore_flags-append xs ys c,
)
