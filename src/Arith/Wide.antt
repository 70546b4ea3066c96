-- ===== src/Arith/Wide.antt =====
-- Sums and differences of 64 bits by pairs of instructions (src/m68k/ops_arith.c: `m68k_exec_add`
-- and `m68k_exec_addx`, `m68k_exec_sub` and `m68k_exec_subx`).
use rocket.Base.{
  ℕ, ◌+◌, ◌*◌, ◌^◌, ◌<◌, ◌≡◌, ◌≢◌, ◌∙◌, refl, sym, false, ◌==◌, arith, update, update-same,
  test_bit, add32, sub32,
}
use rocket.Cpu.{M68kCpu, Host, ok, size_long, sr_z, ◌>>◌}
use rocket.Flags.{flags_add, flags_sub}
use rocket.Decode.{reg_field, mode_field, ea_reg_field, opmode_field, size_field, merge, extend_bit}
use rocket.Arith.Add.{exec_add, exec_sub}
use rocket.Arith.Extended.{
  flags_addx, flags_subx, exec_addx, exec_subx, extended_operands, extended_result,
}
use rocket.Arith.Register.{merge_lem, exec_add-equation, exec_sub-equation}
use rocket.Arith.Chain.{wide, flags_addx-wide, flags_subx-wide}

merge-long : (old result : ℕ) → old < 2 ^ 32 → result < 2 ^ 32 → merge size_long old result ≡ result
merge-long old result fits small = omega (arith, merge_lem size_long old result fits)

exec_addx-equation :
    (opcode : ℕ) (h : Host) (c : M68kCpu)
    → size_field opcode ≡ 2
    → test_bit 3 opcode ≡ false
    → let n = reg_field opcode in
      let src = c.d_regs (ea_reg_field opcode) in
      let dest = c.d_regs n in
      let result = add32 (add32 dest src) (extend_bit c.sr) in
      exec_addx opcode h c ≡ (
        ok tt,
        record c {
          d_regs = update c.d_regs n (merge size_long dest result);
          sr = flags_addx src dest result size_long c.sr;
        },
      )
unfolding exec_addx extended_operands extended_result
exec_addx-equation opcode h c long registers = rw (long, registers) refl

exec_subx-equation :
    (opcode : ℕ) (h : Host) (c : M68kCpu)
    → size_field opcode ≡ 2
    → test_bit 3 opcode ≡ false
    → let n = reg_field opcode in
      let src = c.d_regs (ea_reg_field opcode) in
      let dest = c.d_regs n in
      let result = sub32 (sub32 dest src) (extend_bit c.sr) in
      exec_subx opcode h c ≡ (
        ok tt,
        record c {
          d_regs = update c.d_regs n (merge size_long dest result);
          sr = flags_subx src dest result size_long c.sr;
        },
      )
unfolding exec_subx extended_operands extended_result
exec_subx-equation opcode h c long registers = rw (long, registers) refl

update-other : (f : ℕ → ℕ) (i v j : ℕ) → j ≢ i → update f i v j ≡ f j
update-other f i v j other = ground arith

module _ (first second : ℕ) (h : Host) (c : M68kCpu) (long : opmode_field first ≡ 2)
    (registers : mode_field first ≡ 0) (long2 : size_field second ≡ 2)
    (registers2 : test_bit 3 second ≡ false) (apart : reg_field second ≢ reg_field first)
    (source_apart : ea_reg_field second ≢ reg_field first)
    (fits : (i : ℕ) → c.d_regs i < 2 ^ 32) where
  abbrev lo1 : ℕ
  lo1 = c.d_regs (reg_field first)

  abbrev lo2 : ℕ
  lo2 = c.d_regs (ea_reg_field first)

  abbrev hi1 : ℕ
  hi1 = c.d_regs (reg_field second)

  abbrev hi2 : ℕ
  hi2 = c.d_regs (ea_reg_field second)

  -- The context after two results and their flags.
  abbrev after : ℕ → ℕ → ℕ → M68kCpu
  after lo hi sr = record c {
    d_regs = update (update c.d_regs (reg_field first) lo) (reg_field second) hi;
    sr = sr;
  }

  exec_add-exec_addx-equation :
      let lo = add32 lo1 lo2 in
      let sr1 = flags_add lo2 lo1 lo size_long c.sr in
      let hi = add32 (add32 hi1 hi2) (extend_bit sr1) in
      (exec_add first >> exec_addx second) h c
      ≡ (ok tt, after lo hi (flags_addx hi2 hi1 hi size_long sr1))
  exec_add-exec_addx-equation =
      let lo = add32 lo1 lo2 in
      let sr1 = flags_add lo2 lo1 lo size_long c.sr in
      let hi = add32 (add32 hi1 hi2) (extend_bit sr1) in
      let c1 = record c { d_regs = update c.d_regs (reg_field first) lo; sr = sr1 } in
      let low =
        rw (long, merge-long lo1 lo (fits (reg_field first)) (omega arith)) at
          (exec_add-equation first h c (omega arith) registers) in
      let high =
        rw
          (
            update-other c.d_regs (reg_field first) lo (reg_field second) apart,
            update-other c.d_regs (reg_field first) lo (ea_reg_field second) source_apart,
            merge-long hi1 hi (fits (reg_field second)) (omega arith),
          )
          at (exec_addx-equation second h c1 long2 registers2) in
      rw low high

  -- ADD.L Dm,Dn and then ADDX.L Dp,Dq, where Dq and Dp are other registers than Dn, on data registers of
  -- 32 bits and under any host: both return, the long words in Dq (high) and Dn (low) together with
  -- the final X are the whole sum of Dq, Dn and Dp, Dm, the final Z holds exactly when both long words
  -- are zero, and the other data registers, the address registers, the memory and the PC stay.
  pub exec_add-exec_addx :
      let (r, c') = (exec_add first >> exec_addx second) h c in
      let lo = reg_field first in
      let hi = reg_field second in
      let total = wide (c'.d_regs hi) (c'.d_regs lo) in
      (r ≡ ok tt)
      × (extend_bit c'.sr * 2 ^ 64 + total
          ≡ wide (c.d_regs hi) (c.d_regs lo)
            + wide (c.d_regs (ea_reg_field second)) (c.d_regs (ea_reg_field first)))
      × (test_bit sr_z c'.sr ≡ (total == 0))
      × ((i : ℕ) → i ≢ lo → i ≢ hi → c'.d_regs i ≡ c.d_regs i)
      × (c'.a_regs ≡ c.a_regs)
      × (c'.memory ≡ c.memory)
      × (c'.pc ≡ c.pc)
  exec_add-exec_addx =
      let lo = add32 lo1 lo2 in
      let sr1 = flags_add lo2 lo1 lo size_long c.sr in
      let hi = add32 (add32 hi1 hi2) (extend_bit sr1) in
      let kept = update c.d_regs (reg_field first) lo in
      let (sum, zero) =
        flags_addx-wide hi1 lo1 hi2 lo2 c.sr (fits (reg_field second)) (fits (reg_field first))
          (fits (ea_reg_field second)) (fits (ea_reg_field first)) in
      rw
        (
          exec_add-exec_addx-equation,
          update-same kept (reg_field second) hi,
          update-other kept (reg_field second) hi (reg_field first) (λ e. apart (sym e)),
          update-same c.d_regs (reg_field first) lo,
        )
        (
          refl,
          sum,
          zero,
          λ i other_lo other_hi.
              update-other kept (reg_field second) hi i other_hi
              ∙ update-other c.d_regs (reg_field first) lo i other_lo,
          refl,
          refl,
          refl,
        )

  exec_sub-exec_subx-equation :
      let lo = sub32 lo1 lo2 in
      let sr1 = flags_sub lo2 lo1 lo size_long c.sr in
      let hi = sub32 (sub32 hi1 hi2) (extend_bit sr1) in
      (exec_sub first >> exec_subx second) h c
      ≡ (ok tt, after lo hi (flags_subx hi2 hi1 hi size_long sr1))
  exec_sub-exec_subx-equation =
      let lo = sub32 lo1 lo2 in
      let sr1 = flags_sub lo2 lo1 lo size_long c.sr in
      let hi = sub32 (sub32 hi1 hi2) (extend_bit sr1) in
      let c1 = record c { d_regs = update c.d_regs (reg_field first) lo; sr = sr1 } in
      let low =
        rw (long, merge-long lo1 lo (fits (reg_field first)) (omega arith)) at
          (exec_sub-equation first h c (omega arith) registers) in
      let high =
        rw
          (
            update-other c.d_regs (reg_field first) lo (reg_field second) apart,
            update-other c.d_regs (reg_field first) lo (ea_reg_field second) source_apart,
            merge-long hi1 hi (fits (reg_field second)) (omega arith),
          )
          at (exec_subx-equation second h c1 long2 registers2) in
      rw low high

  -- SUB.L Dm,Dn and then SUBX.L Dp,Dq, where Dq and Dp are other registers than Dn, on data registers of
  -- 32 bits and under any host: both return, the long words in Dq (high) and Dn (low) are the
  -- difference of Dq, Dn and Dp, Dm, with the final X as its borrow, the final Z holds exactly when
  -- both long words are zero, and the other data registers, the address registers, the memory and the
  -- PC stay.
  pub exec_sub-exec_subx :
      let (r, c') = (exec_sub first >> exec_subx second) h c in
      let lo = reg_field first in
      let hi = reg_field second in
      let total = wide (c'.d_regs hi) (c'.d_regs lo) in
      (r ≡ ok tt)
      × (total + wide (c.d_regs (ea_reg_field second)) (c.d_regs (ea_reg_field first))
          ≡ wide (c.d_regs hi) (c.d_regs lo) + extend_bit c'.sr * 2 ^ 64)
      × (test_bit sr_z c'.sr ≡ (total == 0))
      × ((i : ℕ) → i ≢ lo → i ≢ hi → c'.d_regs i ≡ c.d_regs i)
      × (c'.a_regs ≡ c.a_regs)
      × (c'.memory ≡ c.memory)
      × (c'.pc ≡ c.pc)
  exec_sub-exec_subx =
      let lo = sub32 lo1 lo2 in
      let sr1 = flags_sub lo2 lo1 lo size_long c.sr in
      let hi = sub32 (sub32 hi1 hi2) (extend_bit sr1) in
      let kept = update c.d_regs (reg_field first) lo in
      let (difference, zero) =
        flags_subx-wide hi1 lo1 hi2 lo2 c.sr (fits (reg_field second)) (fits (reg_field first))
          (fits (ea_reg_field second)) (fits (ea_reg_field first)) in
      rw
        (
          exec_sub-exec_subx-equation,
          update-same kept (reg_field second) hi,
          update-other kept (reg_field second) hi (reg_field first) (λ e. apart (sym e)),
          update-same c.d_regs (reg_field first) lo,
        )
        (
          refl,
          difference,
          zero,
          λ i other_lo other_hi.
              update-other kept (reg_field second) hi i other_hi
              ∙ update-other c.d_regs (reg_field first) lo i other_lo,
          refl,
          refl,
          refl,
        )
