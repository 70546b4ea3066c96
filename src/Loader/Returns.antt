-- ===== src/Loader/Returns.antt =====
-- The loaders return on every file (src/loader.c).
use rocket.Base.{
  ℕ, zero, suc, ◌+◌, ◌≤◌, ◌≡◌, refl, Bool, true, false, ◌-◌, ◌*◌, ◌&&◌, ◌||◌, get_or, inl, inr,
  Bool-cases, Option-cases, List, [], ◌∷◌, Option, none, some, length, drop, shl, add32, sub32,
  arith, ◌==◌, ltb, if◌then◌else◌,
}
use rocket.Cpu.{M68kCpu, Host, Outcome, ok, M, pure, ◌>>=◌}
use rocket.Exception.{m68k_set_pc, set_pc}
use rocket.Bus.{mask_address_24}
use rocket.Loader.Text.{fgets, c_string, loader_store, parse_byte, store_digits}
use rocket.Loader.Binary.{store_file, m68k_load_bin}
use rocket.Loader.Srec.{
  srec_addr_len, parse_address, srec_is_whole, srec_record, srec_line, srec_lines, srec_chomp,
  m68k_load_srec,
}
use rocket.Loader.Ihex.{
  strip_ends, parse_word, parse_long, ihex_is_whole, ihex_record, ihex_line, ihex_lines,
  m68k_load_ihex,
}

-- A call that returns.
abbrev Returns : {A : Type 0} → Outcome A × M68kCpu → Type 0
Returns {A} r = (a : A) × (r.0 ≡ ok a)

Returns-bind :
    {A B : Type 0} (m : M A) (k : A → M B) (h : Host) (c : M68kCpu)
    → Returns (m h c)
    → ((a : A) (d : M68kCpu) → Returns (k a h d))
    → Returns ((m >>= k) h c)
Returns-bind m k h c (a, e) rest = rw e (rest a (m h c).1)

Returns-if :
    {A : Type 0} (b : Bool) (m n : M A) (h : Host) (c : M68kCpu)
    → Returns (m h c)
    → Returns (n h c)
    → Returns ((if b then m else n) h c)
Returns-if true m n h c p q = p
Returns-if false m n h c p q = q

module _ (h : Host) where
  loader_store-Returns :
      (address value : ℕ) (c : M68kCpu) → Returns (loader_store address value h c)
  unfolding loader_store
  loader_store-Returns address value c =
      Returns-if (ltb (mask_address_24 address) c.memory_size) _ _ h c (true, refl) (false, refl)

  store_digits-Returns :
      (n : ℕ) (ptr : List ℕ) (address : ℕ) (c : M68kCpu) → Returns (store_digits n ptr address h c)
  unfolding store_digits
  store_digits-Returns zero ptr address c = (tt, refl)
  store_digits-Returns (suc n) ptr address c =
      Returns-bind (loader_store address (parse_byte ptr)) _ h c
        (loader_store-Returns address (parse_byte ptr) c)
        (λ stored d.
          Returns-if stored _ _ h d (store_digits-Returns n (drop 2 ptr) (add32 address 1) d)
            (tt, refl))

  m68k_set_pc-Returns : (pc : ℕ) (c : M68kCpu) → Returns (m68k_set_pc pc h c)
  unfolding m68k_set_pc set_pc
  m68k_set_pc-Returns pc c = elim (Option-cases h.pc_changed_cb) [
    | inl silent ↦ rw silent (tt, refl)
    | inr (f, told) ↦ rw told (tt, refl)
  ]

  srec_record-Returns :
      (type count addr_len : ℕ) (line : List ℕ) (c : M68kCpu)
      → Returns (srec_record type count addr_len line h c)
  unfolding srec_record
  srec_record-Returns type count addr_len line c =
      let addr = parse_address addr_len (drop 4 line) 0 in
      let digits = drop (4 + 2 * addr_len) line in
      Returns-if (type == b'1' || type == b'2' || type == b'3') _ _ h c
        (Returns-bind (store_digits (count - addr_len - 1) digits addr) (λ u. pure false) h c
          (store_digits-Returns _ digits addr c) (λ u d. (false, refl)))
        (Returns-if (type == b'7' || type == b'8' || type == b'9') _ _ h c
          (Returns-bind (m68k_set_pc addr) (λ u. pure true) h c (m68k_set_pc-Returns addr c)
            (λ u d. (true, refl)))
          (false, refl))

  srec_line-Returns : (line : List ℕ) (c : M68kCpu) → Returns (srec_line line h c)
  unfolding srec_line
  srec_line-Returns line c = elim (Bool-cases (srec_is_whole line)) [
    | inr broken ↦ rw broken (false, refl)
    | inl whole ↦ elim (Option-cases (srec_addr_len (get_or line 1 0))) [
      | inl unknown ↦ rw (whole, unknown) (false, refl)
      | inr (n, known) ↦ elim (Bool-cases (ltb (parse_byte (drop 2 line)) (n + 1))) [
        | inl short ↦ rw (whole, known, short) (false, refl)
        | inr enough ↦
            rw (whole, known, enough)
              (srec_record-Returns (get_or line 1 0) (parse_byte (drop 2 line)) n line c)
      ]
    ]
  ]

  ihex_record-Returns :
      (type count offset base : ℕ) (digits : List ℕ) (c : M68kCpu)
      → Returns (ihex_record type count offset base digits h c)
  unfolding ihex_record
  ihex_record-Returns type count offset base digits c =
      let segment = add32 (shl (parse_word digits) 4) (parse_word (drop 4 digits)) in
      let starts = λ (pc : ℕ).
        Returns-bind (m68k_set_pc pc) (λ u. pure (some base)) h c (m68k_set_pc-Returns pc c)
          (λ u d. (some base, refl)) in
      Returns-if (type == 0x00) _ _ h c
        (Returns-bind (store_digits count digits (add32 base offset)) (λ u. pure (some base)) h c
          (store_digits-Returns count digits (add32 base offset) c) (λ u d. (some base, refl)))
        (Returns-if (type == 0x01) _ _ h c (none, refl)
          (Returns-if (type == 0x02 && count == 2) _ _ h c (_, refl)
            (Returns-if (type == 0x04 && count == 2) _ _ h c (_, refl)
              (Returns-if (type == 0x03 && count == 4) _ _ h c (starts segment) (
                Returns-if (type == 0x05 && count == 4) _ _ h c (starts (parse_long digits))
                  (some base, refl))))))

  ihex_line-Returns : (base : ℕ) (line : List ℕ) (c : M68kCpu) → Returns (ihex_line base line h c)
  unfolding ihex_line
  ihex_line-Returns base line c =
      Returns-if (ihex_is_whole line) _ _ h c
        (ihex_record-Returns (parse_byte (drop 7 line)) (parse_byte (drop 1 line))
          (parse_word (drop 3 line)) base (drop 9 line) c)
        (some base, refl)

  store_file-Returns :
      (file : List ℕ) (address : ℕ) (c : M68kCpu) → Returns (store_file file address h c)
  unfolding store_file
  store_file-Returns [] address c = (address, refl)
  store_file-Returns (b ∷ file) address c =
      Returns-bind (loader_store address b) _ h c (loader_store-Returns address b c) (λ stored d.
        Returns-if stored _ _ h d (store_file-Returns file (add32 address 1) d) (address, refl))

-- The rest of a file is shorter than the file.
length-fgets_rest : (n : ℕ) (text : List ℕ) → length (fgets (suc n) text).1 ≤ length text
unfolding fgets
length-fgets_rest zero text = omega arith
length-fgets_rest (suc n) [] = omega arith
length-fgets_rest (suc n) (c ∷ text) = ground (arith, length-fgets_rest n text)

fgets_shortens : (n x : ℕ) (text : List ℕ) → length (fgets (suc (suc n)) (x ∷ text)).1 ≤ length text
unfolding fgets
fgets_shortens n x text = ground (arith, length-fgets_rest n text)

module _ (h : Host) where
  srec_lines-Returns :
      (fuel : ℕ) (text : List ℕ) (c : M68kCpu)
      → length text ≤ fuel
      → Returns (srec_lines fuel text h c)
  unfolding srec_lines
  srec_lines-Returns fuel [] c le = (tt, refl)
  srec_lines-Returns zero (x ∷ text) c le = absurd (omega arith)
  srec_lines-Returns (suc fuel) (x ∷ text) c le =
      let line = srec_chomp (fgets 512 (x ∷ text)).0 in
      let rest = (fgets 512 (x ∷ text)).1 in
      let shorter : length rest ≤ fuel = omega (arith, fgets_shortens 510 x text) in
      Returns-bind (srec_line line) _ h c (srec_line-Returns h line c)
        (λ ended d. Returns-if ended _ _ h d (tt, refl) (srec_lines-Returns fuel rest d shorter))

  ihex_lines-Returns :
      (fuel base : ℕ) (text : List ℕ) (c : M68kCpu)
      → length text ≤ fuel
      → Returns (ihex_lines fuel base text h c)
  unfolding ihex_lines
  ihex_lines-Returns fuel base [] c le = (tt, refl)
  ihex_lines-Returns zero base (x ∷ text) c le = absurd (omega arith)
  ihex_lines-Returns (suc fuel) base (x ∷ text) c le =
      let line = strip_ends (c_string (fgets 600 (x ∷ text)).0) in
      let rest = (fgets 600 (x ∷ text)).1 in
      let shorter : length rest ≤ fuel = omega (arith, fgets_shortens 598 x text) in
      Returns-bind (ihex_line base line) _ h c (ihex_line-Returns h base line c) (λ next d.
        elim (Option-cases next) [
          | inl end ↦ rw end (tt, refl)
          | inr (b, more) ↦ rw more (ihex_lines-Returns fuel b rest d shorter)
        ])

-- Whether the file could be opened.
abbrev pub opened : Option (List ℕ) → Bool
opened none = false
opened (some file) = true

-- Under any host and on any file, whatever its bytes: the three loaders return, and each answers false
-- exactly when the file cannot be opened.
pub m68k_load-opened :
    (file : Option (List ℕ)) (address : ℕ) (h : Host) (c : M68kCpu)
    → ((m68k_load_srec file h c).0 ≡ ok (opened file))
      × ((m68k_load_ihex file h c).0 ≡ ok (opened file))
      × (n : ℕ) × ((m68k_load_bin file address h c).0 ≡ ok (opened file, n))
unfolding m68k_load_srec m68k_load_ihex m68k_load_bin
m68k_load-opened none address h c = (refl, refl, 0, refl)
m68k_load-opened (some file) address h c =
    let (u, srec) = srec_lines-Returns h (length file) file c (omega arith) in
    let (v, ihex) = ihex_lines-Returns h (length file) 0 file c (omega arith) in
    let (end, bin) = store_file-Returns h file address c in
    (rw srec refl, rw ihex refl, sub32 end address, rw bin refl)
