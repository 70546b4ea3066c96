-- ===== src/Flags/Compare.antt =====
-- The conditions of `Bcc`, `Scc` and `DBcc` after a comparison, as orders of the operands.
use rocket.Base.{
  ℕ, ◌+◌, ◌*◌, ◌<◌, ◌^◌, ◌≡◌, ◌∙◌, ◌⊎◌, ltb_ℤ, Bool, not, ◌&&◌, ◌||◌, ltb, leb, ◌==◌, arith, sub32,
}
use rocket.Cpu.{M68kSize, size_byte, size_word, size_long}
use rocket.Flags.Update.{flags_cmp, check_condition}
use rocket.Flags.Carry.{unsigned, signed, half_range, unsigned-lt, flags_cmp-means}
use rocket.Flags.Carry.Sums.{difference_zero, difference_sign, signed_order}

difference :
    (size : M68kSize) (d s : ℕ)
    → let r = unsigned size (sub32 d s) in
      (r < 2 * half_range size)
      × ((r + unsigned size s ≡ unsigned size d)
          ⊎ (r + unsigned size s ≡ unsigned size d + 2 * half_range size))
difference size_byte d s = omega arith
difference size_word d s = omega arith
difference size_long d s = omega arith

-- The ten conditions from the four flags, once each flag is an order.
conditions_of_flags :
    (n v z c lt gt : Bool) (ud us : ℕ)
    → c ≡ ltb ud us
    → z ≡ (ud == us)
    → (n && not v || not n && v) ≡ lt
    → gt ≡ (not lt && not (ud == us))
    → ((not c && not z) ≡ ltb us ud)
      × ((c || z) ≡ leb ud us)
      × (not c ≡ leb us ud)
      × (c ≡ ltb ud us)
      × (not z ≡ not (ud == us))
      × (z ≡ (ud == us))
      × ((n && v || not n && not v) ≡ not lt)
      × ((n && not v || not n && v) ≡ lt)
      × ((n && v && not z || not n && not v && not z) ≡ gt)
      × ((z || n && not v || not n && v) ≡ not gt)
conditions_of_flags n v z c lt gt ud us hc hz hlt hgt = ground arith

-- After comparing `dest` with `src`, both of 32 bits, the conditions HI, LS, CC, CS, NE, EQ, GE, LT, GT and LE hold
-- exactly when the destination is in that order to the source: the first four without sign, the
-- last four signed.
pub check_condition-flags_cmp :
    (src dest : ℕ) (size : M68kSize) (sr : ℕ)
    → src < 2 ^ 32
    → dest < 2 ^ 32
    → let holds = λ (condition : ℕ).
      check_condition condition (flags_cmp src dest (sub32 dest src) size sr) in
      let ud = unsigned size dest in
      let us = unsigned size src in
      let sd = signed size dest in
      let ss = signed size src in
      (holds 2 ≡ ltb us ud)
      × (holds 3 ≡ leb ud us)
      × (holds 4 ≡ leb us ud)
      × (holds 5 ≡ ltb ud us)
      × (holds 6 ≡ not (ud == us))
      × (holds 7 ≡ (ud == us))
      × (holds 12 ≡ not (ltb_ℤ sd ss))
      × (holds 13 ≡ ltb_ℤ sd ss)
      × (holds 14 ≡ ltb_ℤ ss sd)
      × (holds 15 ≡ not (ltb_ℤ ss sd))
unfolding check_condition
check_condition-flags_cmp src dest size sr src_fits dest_fits =
    let m = flags_cmp-means src dest size sr src_fits dest_fits in
    let (r_lt, wraps) = difference size dest src in
    let d_lt = unsigned-lt size dest in
    let s_lt = unsigned-lt size src in
    let h = half_range size in
    let ud = unsigned size dest in
    let us = unsigned size src in
    let ur = unsigned size (sub32 dest src) in
    conditions_of_flags _ _ _ _ _ _ ud us m.0
      (m.3 ∙ difference_zero h ud us ur d_lt s_lt r_lt wraps)
      (rw (m.2, m.4) (difference_sign h ud us ur d_lt s_lt r_lt wraps))
      (signed_order h ud us d_lt s_lt)
