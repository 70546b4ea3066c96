-- ===== src/State/Accept.antt =====
-- What restoring a save state does with its fields (src/m68k/m68k.c: `m68k_deserialize`).
use mathlib.Core.List.{append-nil, append_assoc}
use rocket.Base.{
  ℕ, zero, suc, ◌+◌, ◌-◌, ◌*◌, ◌<◌, ◌≤◌, ◌≡◌, ◌∙◌, refl, sym, ap, Bool, true, false, inl, inr,
  Bool-cases, Option-cases, List, [], ◌∷◌, ◌++◌, Option, none, some, arith, length, length-append,
  drop, and_then, ltb,
}
use rocket.Cpu.{M68kCpu}
use rocket.State.Bytes.{state_put_16, state_get_16}
use rocket.State.Save.{state_header}
use rocket.State.Restore.{
  restore_field, restore_fields, clear_latches, bad_header, m68k_deserialize,
}
use rocket.State.Fields.{Field, encode, apply_fields, drop-append, restore_field-append}

-- The rest of the loop, unless a field was refused.
abbrev after : (M68kCpu → Option (Bool × M68kCpu)) → Bool × M68kCpu → Option (Bool × M68kCpu)
after rest (true, c) = rest c
after rest (false, c) = some (false, c)

restore_fields-field :
    (n tag : ℕ) (p rest : List ℕ) (c : M68kCpu)
    → restore_fields (suc n) (tag ∷ length p ∷ p ++ rest) c
      ≡ and_then (restore_field tag (length p) p c) (some (false, c)) (restore_fields n rest)
unfolding restore_fields
restore_fields-field n tag p rest c =
    let enough : ltb (length (p ++ rest)) (length p) ≡ false =
      ground (arith, length-append p rest) in
    rw (enough, drop-append p rest, restore_field-append tag p rest c) refl

restore_fields-encode :
    (n m : ℕ) (fs : List Field) (tail : List ℕ) (c : M68kCpu)
    → n ≡ length fs + m
    → restore_fields n (encode fs ++ tail) c ≡ after (restore_fields m tail) (apply_fields fs c)
restore_fields-encode n m [] tail c e = ap (λ (k : ℕ). restore_fields k tail c) (omega (arith, e))
restore_fields-encode zero m (f ∷ fs) tail c e = absurd (omega arith)
restore_fields-encode (suc n) m ((tag, p) ∷ fs) tail c e =
    elim (Option-cases (restore_field tag (length p) p c)) [
      | inl refused ↦
          rw
            (
              append_assoc p (encode fs) tail,
              restore_fields-field n tag p (encode fs ++ tail) c,
              refused,
            )
            refl
      | inr (c', restored) ↦
          rw
            (
              append_assoc p (encode fs) tail,
              restore_fields-field n tag p (encode fs ++ tail) c,
              restored,
            )
            (restore_fields-encode n m fs tail c' (omega arith))
    ]

length-encode : (fs : List Field) → 2 * length fs ≤ length (encode fs)
length-encode [] = omega arith
length-encode ((tag, p) ∷ fs) =
    omega (arith, length-encode fs, length-append (tag ∷ length p ∷ p) (encode fs))

length-drop : (n : ℕ) (p : List ℕ) → length (drop n p) ≤ length p
length-drop zero p = omega arith
length-drop (suc n) [] = omega arith
length-drop (suc n) (x ∷ p) = omega (arith, length-drop n p)

restore_fields_total :
    (n : ℕ) (p : List ℕ) (c : M68kCpu)
    → length p ≤ n
    → (r : Bool × M68kCpu) × (restore_fields n p c ≡ some r)
unfolding restore_fields
restore_fields_total n [] c h = ((true, clear_latches c), refl)
restore_fields_total zero (x ∷ p) c h = absurd (omega arith)
restore_fields_total (suc n) (x ∷ []) c h = ((false, c), refl)
restore_fields_total (suc n) (tag ∷ len ∷ p) c h = elim (Bool-cases (ltb (length p) len)) [
  | inl short ↦ ((false, c), rw short refl)
  | inr long ↦ elim (Option-cases (restore_field tag len p c)) [
    | inl refused ↦ ((false, c), rw (long, refused) refl)
    | inr (c', restored) ↦
        rw (long, restored)
          (restore_fields_total n (drop len p) c' (omega (arith, length-drop len p)))
  ]
]

-- Restoring returns on every buffer, null or not, and from every context: the length is enough fuel.
pub m68k_deserialize_total :
    (buffer : Option (List ℕ)) (c : M68kCpu)
    → (r : Bool × M68kCpu) × (m68k_deserialize buffer c ≡ some r)
unfolding m68k_deserialize
m68k_deserialize_total none c = ((false, c), refl)
m68k_deserialize_total (some buffer) c = elim (Bool-cases (bad_header buffer)) [
  | inl bad ↦ ((false, c), rw bad refl)
  | inr good ↦
      rw good (restore_fields_total (length buffer) (drop 8 buffer) c (length-drop 8 buffer))
]

-- The answer and the context, after the fields have been tried.
abbrev pub settled : Bool × M68kCpu → Bool × M68kCpu
settled (true, c) = (true, clear_latches c)
settled (false, c) = (false, c)

good_header : (p : List ℕ) → bad_header (state_header ++ p) ≡ false
unfolding bad_header state_header state_put_16 state_get_16
good_header p = ground arith

deserialize-body :
    (fs : List Field) (tail : List ℕ) (c : M68kCpu)
    → m68k_deserialize (some (state_header ++ (encode fs ++ tail))) c
      ≡ after (restore_fields (8 + length (encode fs ++ tail) - length fs) tail) (apply_fields fs c)
unfolding m68k_deserialize state_header state_put_16
deserialize-body fs tail c =
    let p = encode fs ++ tail in
    let n = length (state_header ++ p) in
    let enough : n ≡ length fs + (8 + length p - length fs) =
      omega (arith, length-encode fs, length-append (encode fs) tail) in
    rw (good_header p) (restore_fields-encode n (8 + length p - length fs) fs tail c enough)

restore_fields-end : (n : ℕ) (r : Bool × M68kCpu) → after (restore_fields n []) r ≡ some (settled r)
unfolding restore_fields
restore_fields-end n (true, c) = refl
restore_fields-end n (false, c) = refl

-- For every list of tagged fields: a save state of the header and these fields is restored field by
-- field, in order, up to the first field that is refused; the answer says whether all were accepted,
-- and only then the fault latches are cleared. The fields may be any, unknown, repeated or missing.
pub m68k_deserialize-encode :
    (fs : List Field) (c : M68kCpu)
    → m68k_deserialize (some (state_header ++ encode fs)) c ≡ some (settled (apply_fields fs c))
m68k_deserialize-encode fs c =
    rw (← append-nil (encode fs))
      (deserialize-body fs [] c ∙ restore_fields-end _ (apply_fields fs c))

-- What is left of a field that the end of the buffer cuts: its tag alone, or fewer bytes than its
-- length says.
abbrev pub IsCut : List ℕ → Type 0
IsCut [] = ⊥
IsCut (x ∷ []) = Unit {0}
IsCut (tag ∷ len ∷ p) = length p < len

restore_fields-cut :
    (n : ℕ) (tail : List ℕ) (c : M68kCpu)
    → IsCut tail
    → restore_fields (suc n) tail c ≡ some (false, c)
unfolding restore_fields
restore_fields-cut n [] c cut = absurd cut
restore_fields-cut n (x ∷ []) c cut = refl
restore_fields-cut n (tag ∷ len ∷ p) c cut = ground arith

-- A save state whose last field is cut is refused, and the context is left as the whole fields
-- before it have made it: a refused restore may have changed the context.
pub m68k_deserialize-cut :
    (fs : List Field) (tail : List ℕ) (c c' : M68kCpu)
    → apply_fields fs c ≡ (true, c')
    → IsCut tail
    → m68k_deserialize (some (state_header ++ (encode fs ++ tail))) c ≡ some (false, c')
m68k_deserialize-cut fs tail c c' accepted cut =
    let n = 7 + length (encode fs ++ tail) - length fs in
    let e : 8 + length (encode fs ++ tail) - length fs ≡ suc n =
      omega (arith, length-encode fs, length-append (encode fs) tail) in
    deserialize-body fs tail c ∙ rw (accepted, e) (restore_fields-cut n tail c' cut)

apply_fields-unknown :
    (fs gs : List Field) (tag : ℕ) (p : List ℕ) (c : M68kCpu)
    → 13 < tag
    → apply_fields (fs ++ (tag, p) ∷ gs) c ≡ apply_fields (fs ++ gs) c
unfolding restore_field
apply_fields-unknown [] gs tag p c h = ground arith
apply_fields-unknown ((t, q) ∷ fs) gs tag p c h =
    elim (Option-cases (restore_field t (length q) q c)) [
      | inl refused ↦ rw refused refl
      | inr (c', restored) ↦ rw restored (apply_fields-unknown fs gs tag p c' h)
    ]

-- A field with a tag above those of this version, wherever it stands and whatever it holds, makes no
-- difference to the answer or to the context.
pub m68k_deserialize-unknown :
    (fs gs : List Field) (tag : ℕ) (p : List ℕ) (c : M68kCpu)
    → 13 < tag
    → m68k_deserialize (some (state_header ++ encode (fs ++ (tag, p) ∷ gs))) c
      ≡ m68k_deserialize (some (state_header ++ encode (fs ++ gs))) c
m68k_deserialize-unknown fs gs tag p c h =
    m68k_deserialize-encode (fs ++ (tag, p) ∷ gs) c
    ∙ ap (λ (r : Bool × M68kCpu). some (settled r)) (apply_fields-unknown fs gs tag p c h)
    ∙ sym (m68k_deserialize-encode (fs ++ gs) c)

apply_fields-prefix :
    (fs gs : List Field) (c : M68kCpu)
    → (apply_fields (fs ++ gs) c).0 ≡ true
    → (apply_fields fs c).0 ≡ true
apply_fields-prefix [] gs c h = refl
apply_fields-prefix ((t, q) ∷ fs) gs c h = elim (Option-cases (restore_field t (length q) q c)) [
  | inl refused ↦ cc (rw refused at h)
  | inr (c', restored) ↦ rw restored (apply_fields-prefix fs gs c' (rw restored at h))
]

settled-accepted : (r : Bool × M68kCpu) → (settled r).0 ≡ r.0
settled-accepted (true, c) = refl
settled-accepted (false, c) = refl

-- Truncation is noticed inside a field only: where a save state is accepted, the state that ends
-- after any number of its whole fields is accepted too.
pub m68k_deserialize-prefix :
    (fs gs : List Field) (c c' : M68kCpu)
    → m68k_deserialize (some (state_header ++ encode (fs ++ gs))) c ≡ some (true, c')
    → (d : M68kCpu) × (m68k_deserialize (some (state_header ++ encode fs)) c ≡ some (true, d))
m68k_deserialize-prefix fs gs c c' h =
    let whole = settled (apply_fields (fs ++ gs) c) in
    let same : whole ≡ (true, c') = cc (m68k_deserialize-encode (fs ++ gs) c) in
    let good : (apply_fields (fs ++ gs) c).0 ≡ true =
      sym (settled-accepted (apply_fields (fs ++ gs) c)) ∙ ap (λ (r : Bool × M68kCpu). r.0) same in
    let front : (settled (apply_fields fs c)).0 ≡ true =
      settled-accepted (apply_fields fs c) ∙ apply_fields-prefix fs gs c good in
    (
      (settled (apply_fields fs c)).1,
      m68k_deserialize-encode fs c
          ∙ ap (λ (b : Bool). some (b, (settled (apply_fields fs c)).1)) front,
    )
