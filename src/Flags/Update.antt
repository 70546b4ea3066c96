-- ===== src/Flags/Update.antt =====
-- The updates of SR and the sixteen conditions.
use rocket.Base.{
  ℕ, ◌^◌, Bool, true, false, not, ◌&&◌, ◌||◌, ⊤, ◌==◌, if◌then◌else◌, bit_and, bit_or, test_bit,
  low_bits,
}
use rocket.Cpu.{M68kSize, size_bits, size_msb, sr_c, sr_v, sr_z, sr_n, sr_x, M, modify_sr}

-- `if (b) sr |= 1 << k`.
unfoldable pub raise_if : Bool → ℕ → ℕ → ℕ
raise_if b k sr = if b then bit_or sr (2 ^ k) else sr

-- `(x & msb_mask) != 0` and `(x & value_mask) == 0`.
unfoldable pub msb : M68kSize → ℕ → Bool
msb size x = test_bit (size_msb size) x

unfoldable pub is_zero : M68kSize → ℕ → Bool
is_zero size x = low_bits x (size_bits size) == 0

unfoldable pub flags_add : ℕ → ℕ → ℕ → M68kSize → ℕ → ℕ
flags_add src dest result size sr =
    let sm = msb size src in
    let dm = msb size dest in
    let rm = msb size result in
    let carry = sm && dm || not rm && dm || sm && not rm in
    raise_if carry sr_x (
      raise_if carry sr_c (
        raise_if (sm && dm && not rm || not sm && not dm && rm) sr_v
          (raise_if (is_zero size result) sr_z (raise_if rm sr_n (bit_and sr 0xFFE0)))))

unfoldable pub flags_sub : ℕ → ℕ → ℕ → M68kSize → ℕ → ℕ
flags_sub src dest result size sr =
    let sm = msb size src in
    let dm = msb size dest in
    let rm = msb size result in
    let borrow = sm && not dm || rm && not dm || sm && rm in
    raise_if borrow sr_x (
      raise_if borrow sr_c (
        raise_if (not sm && dm && not rm || sm && not dm && rm) sr_v
          (raise_if (is_zero size result) sr_z (raise_if rm sr_n (bit_and sr 0xFFE0)))))

unfoldable pub flags_cmp : ℕ → ℕ → ℕ → M68kSize → ℕ → ℕ
flags_cmp src dest result size sr =
    let sm = msb size src in
    let dm = msb size dest in
    let rm = msb size result in
    raise_if (sm && not dm || rm && not dm || sm && rm) sr_c (
      raise_if (not sm && dm && not rm || sm && not dm && rm) sr_v
        (raise_if (is_zero size result) sr_z (raise_if rm sr_n (bit_and sr 0xFFF0))))

unfoldable pub flags_logic : ℕ → M68kSize → ℕ → ℕ
flags_logic result size sr =
    raise_if (is_zero size result) sr_z (raise_if (msb size result) sr_n (bit_and sr 0xFFF0))

unfoldable pub update_flags_add : ℕ → ℕ → ℕ → M68kSize → M ⊤
update_flags_add src dest result size = modify_sr (flags_add src dest result size)

unfoldable pub update_flags_sub : ℕ → ℕ → ℕ → M68kSize → M ⊤
update_flags_sub src dest result size = modify_sr (flags_sub src dest result size)

unfoldable pub update_flags_cmp : ℕ → ℕ → ℕ → M68kSize → M ⊤
update_flags_cmp src dest result size = modify_sr (flags_cmp src dest result size)

unfoldable pub update_flags_logic : ℕ → M68kSize → M ⊤
update_flags_logic result size = modify_sr (flags_logic result size)

-- `m68k_check_condition` on the value of SR.
unfoldable pub check_condition : ℕ → ℕ → Bool
check_condition condition sr =
    let c = test_bit sr_c sr in
    let v = test_bit sr_v sr in
    let z = test_bit sr_z sr in
    let n = test_bit sr_n sr in
    if condition == 0
    then true
    else if condition == 1
    then false
    else if condition == 2
    then not c && not z
    else if condition == 3
    then c || z
    else if condition == 4
    then not c
    else if condition == 5
    then c
    else if condition == 6
    then not z
    else if condition == 7
    then z
    else if condition == 8
    then not v
    else if condition == 9
    then v
    else if condition == 10
    then not n
    else if condition == 11
    then n
    else if condition == 12
    then n && v || not n && not v
    else if condition == 13
    then n && not v || not n && v
    else if condition == 14
    then n && v && not z || not n && not v && not z
    else if condition == 15
    then z || n && not v || not n && v
    else false
