-- ===== src/Arith/Register.antt =====
-- ADD and SUB between data registers (src/m68k/ops_arith.c: `m68k_exec_add`, `m68k_exec_sub`).
use native.Mathlib.Nat.{add-zero}
use rocket.Base.{
  ℕ, ◌+◌, ◌-◌, ◌*◌, ◌/◌, ◌%◌, ◌^◌, ◌<◌, ◌≡◌, ◌≢◌, ◌∙◌, ap, refl, false, ◌==◌, ltb, leb, ◌||◌, arith,
  update, update-same, test_bit, bit_and, bit_or, bit_or_fields, bit_and_high, bit_and_mask,
  bit_and-zero, add32, sub32,
}
use rocket.Cpu.{M68kCpu, M68kSize, size_byte, size_word, size_long, size_bits, Host, ok, sr_c, sr_x}
use rocket.Ea.Register.{m68k_calc_ea-register}
use rocket.Flags.{flags_add, flags_sub, update_flags_add, update_flags_sub}
use rocket.Flags.Carry.{unsigned, half_range, flags_add-means, flags_sub-means}
use rocket.Decode.{reg_field, mode_field, ea_reg_field, opmode_field, opmode_size, merge}
use rocket.Arith.Add.{exec_add, exec_sub}

-- The merged register keeps its bits above the operand size and takes the result's below.
pub merge_lem :
    (size : M68kSize) (old result : ℕ)
    → old < 2 ^ 32
    → merge size old result
      ≡ old / 2 ^ size_bits size * 2 ^ size_bits size + result % 2 ^ size_bits size
unfolding merge
merge_lem size_byte old result fits =
    ap (λ (t : ℕ). bit_or t (result % 2 ^ 8)) (bit_and_high 8 (2 ^ 24 - 1) old)
    ∙ bit_or_fields 8 (bit_and (old / 2 ^ 8) (2 ^ 24 - 1)) (result % 2 ^ 8) (omega arith)
    ∙ omega (arith, bit_and_mask 24 (old / 2 ^ 8))
merge_lem size_word old result fits =
    ap (λ (t : ℕ). bit_or t (result % 2 ^ 16)) (bit_and_high 16 (2 ^ 16 - 1) old)
    ∙ bit_or_fields 16 (bit_and (old / 2 ^ 16) (2 ^ 16 - 1)) (result % 2 ^ 16) (omega arith)
    ∙ omega (arith, bit_and_mask 16 (old / 2 ^ 16))
merge_lem size_long old result fits =
    ap (λ (t : ℕ). bit_or t (result % 2 ^ 32)) (bit_and-zero old)
    ∙ bit_or_fields 32 0 (result % 2 ^ 32) (omega arith)
    ∙ omega arith

pub exec_add-equation :
    (opcode : ℕ) (h : Host) (c : M68kCpu)
    → opmode_field opcode < 3
    → mode_field opcode ≡ 0
    → let n = reg_field opcode in
      let size = opmode_size (opmode_field opcode) in
      let src = c.d_regs (ea_reg_field opcode) in
      let dest = c.d_regs n in
      exec_add opcode h c ≡ (
        ok tt,
        record c {
          d_regs = update c.d_regs n (merge size dest (add32 dest src));
          sr = flags_add src dest (add32 dest src) size c.sr;
        },
      )
unfolding exec_add update_flags_add
exec_add-equation opcode h c short m0 =
    let size = opmode_size (opmode_field opcode) in
    let e = m68k_calc_ea-register (ea_reg_field opcode) size h c in
    let plain : (opmode_field opcode == 3 || opmode_field opcode == 7) ≡ false = ground arith in
    let to_register : (opmode_field opcode == 4
          || opmode_field opcode == 5
          || opmode_field opcode == 6)
        ≡ false =
      ground arith in
    rw (plain, to_register, m0, e) refl

pub exec_sub-equation :
    (opcode : ℕ) (h : Host) (c : M68kCpu)
    → opmode_field opcode < 3
    → mode_field opcode ≡ 0
    → let n = reg_field opcode in
      let size = opmode_size (opmode_field opcode) in
      let src = c.d_regs (ea_reg_field opcode) in
      let dest = c.d_regs n in
      exec_sub opcode h c ≡ (
        ok tt,
        record c {
          d_regs = update c.d_regs n (merge size dest (sub32 dest src));
          sr = flags_sub src dest (sub32 dest src) size c.sr;
        },
      )
unfolding exec_sub update_flags_sub
exec_sub-equation opcode h c short m0 =
    let size = opmode_size (opmode_field opcode) in
    let e = m68k_calc_ea-register (ea_reg_field opcode) size h c in
    let plain : (opmode_field opcode == 3 || opmode_field opcode == 7) ≡ false = ground arith in
    let to_register : (opmode_field opcode == 4
          || opmode_field opcode == 5
          || opmode_field opcode == 6)
        ≡ false =
      ground arith in
    rw (plain, to_register, m0, e) refl

merge-parts :
    (size : M68kSize) (old result : ℕ)
    → old < 2 ^ 32
    → let w = 2 ^ size_bits size in
      (merge size old result / w ≡ old / w) × (merge size old result % w ≡ result % w)
merge-parts size_byte old result fits = (
  omega (arith, merge_lem size_byte old result fits),
  omega (arith, merge_lem size_byte old result fits),
)
merge-parts size_word old result fits = (
  omega (arith, merge_lem size_word old result fits),
  omega (arith, merge_lem size_word old result fits),
)
merge-parts size_long old result fits = (
  omega (arith, merge_lem size_long old result fits),
  omega (arith, merge_lem size_long old result fits),
)

add32-cut :
    (size : M68kSize) (d s : ℕ) → add32 d s % 2 ^ size_bits size ≡ (d + s) % 2 ^ size_bits size
add32-cut size_byte d s = omega arith
add32-cut size_word d s = omega arith
add32-cut size_long d s = omega arith

sub32-cut :
    (size : M68kSize) (d s m : ℕ)
    → m % 2 ^ size_bits size ≡ sub32 d s % 2 ^ size_bits size
    → (m + s) % 2 ^ size_bits size ≡ d % 2 ^ size_bits size
sub32-cut size_byte d s m e = omega arith
sub32-cut size_word d s m e = omega arith
sub32-cut size_long d s m e = omega arith

module _ (opcode : ℕ) (h : Host) (c : M68kCpu) (short : opmode_field opcode < 3)
    (m0 : mode_field opcode ≡ 0) (src_fits : c.d_regs (ea_reg_field opcode) < 2 ^ 32)
    (dest_fits : c.d_regs (reg_field opcode) < 2 ^ 32) where
  -- ADD Dm,Dn at the size of the opcode, on registers of 32 bits: Dn holds the sum cut to the size under its old high part,
  -- the other data registers, the address registers, the memory and the PC stay, C and X are the
  -- carry out of the size, and the instruction returns, under any host.
  pub exec_add-register :
      let (r, c') = exec_add opcode h c in
      let n = reg_field opcode in
      let size = opmode_size (opmode_field opcode) in
      let src = c.d_regs (ea_reg_field opcode) in
      let dest = c.d_regs n in
      let w = 2 ^ size_bits size in
      (r ≡ ok tt)
      × (c'.d_regs n / w ≡ dest / w)
      × (c'.d_regs n % w ≡ (dest + src) % w)
      × ((i : ℕ) → i ≢ n → c'.d_regs i ≡ c.d_regs i)
      × (c'.a_regs ≡ c.a_regs)
      × (c'.memory ≡ c.memory)
      × (c'.pc ≡ c.pc)
      × (test_bit sr_c c'.sr ≡ leb (2 * half_range size) (unsigned size dest + unsigned size src))
      × (test_bit sr_x c'.sr ≡ leb (2 * half_range size) (unsigned size dest + unsigned size src))
  exec_add-register =
      let n = reg_field opcode in
      let size = opmode_size (opmode_field opcode) in
      let src = c.d_regs (ea_reg_field opcode) in
      let dest = c.d_regs n in
      let result = add32 dest src in
      let p = merge-parts size dest result dest_fits in
      let plain : add32 result 0 ≡ result = omega arith in
      let f =
        rw (plain, add-zero) at
          (flags_add-means src dest 0 size c.sr (omega arith) src_fits dest_fits) in
      rw (exec_add-equation opcode h c short m0, update-same c.d_regs n (merge size dest result))
        (
          refl,
          p.0,
          p.1 ∙ add32-cut size dest src,
          λ i other. ground arith,
          refl,
          refl,
          refl,
          f.0,
          f.1,
        )

  -- SUB Dm,Dn at the size of the opcode, on registers of 32 bits: adding Dm to the new Dn gives the old Dn cut to the size,
  -- the high part of Dn, the other data registers, the address registers, the memory and the PC
  -- stay, C and X are the borrow, and the instruction returns, under any host.
  pub exec_sub-register :
      let (r, c') = exec_sub opcode h c in
      let n = reg_field opcode in
      let size = opmode_size (opmode_field opcode) in
      let src = c.d_regs (ea_reg_field opcode) in
      let dest = c.d_regs n in
      let w = 2 ^ size_bits size in
      (r ≡ ok tt)
      × (c'.d_regs n / w ≡ dest / w)
      × ((c'.d_regs n + src) % w ≡ dest % w)
      × ((i : ℕ) → i ≢ n → c'.d_regs i ≡ c.d_regs i)
      × (c'.a_regs ≡ c.a_regs)
      × (c'.memory ≡ c.memory)
      × (c'.pc ≡ c.pc)
      × (test_bit sr_c c'.sr ≡ ltb (unsigned size dest) (unsigned size src))
      × (test_bit sr_x c'.sr ≡ ltb (unsigned size dest) (unsigned size src))
  exec_sub-register =
      let n = reg_field opcode in
      let size = opmode_size (opmode_field opcode) in
      let src = c.d_regs (ea_reg_field opcode) in
      let dest = c.d_regs n in
      let result = sub32 dest src in
      let p = merge-parts size dest result dest_fits in
      let plain : sub32 result 0 ≡ result = omega arith in
      let f =
        rw (plain, add-zero) at
          (flags_sub-means src dest 0 size c.sr (omega arith) src_fits dest_fits) in
      rw (exec_sub-equation opcode h c short m0, update-same c.d_regs n (merge size dest result))
        (
          refl,
          p.0,
          sub32-cut size dest src (merge size dest result) p.1,
          λ i other. ground arith,
          refl,
          refl,
          refl,
          f.0,
          f.1,
        )
