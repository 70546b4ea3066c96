-- ===== src/Step/Loop.antt =====
-- The execution loop over steps of a fixed cost (src/m68k/m68k.c: `m68k_execute`).
use rocket.Base.{
  ℕ, zero, suc, ◌+◌, ◌*◌, ◌/◌, ◌≤◌, ◌≡◌, ◌∙◌, refl, ℤ, pos, pos_part, ◌+ℤ◌, ◌-ℤ◌, ltb_ℤ, true,
  false, arith, int_laws,
}
use rocket.Cpu.{M68kCpu, Host, ok}
use rocket.Core.{m68k_cycles_run}
use rocket.Step.Run.{m68k_step, execute_loop, m68k_execute}

-- The steps of four cycles that use up a budget.
abbrev pub rounds : ℤ → ℕ
rounds budget = (pos_part budget + 3) / 4

rounds_spent : (budget : ℤ) (n : ℕ) → rounds budget ≡ suc n → rounds (budget -ℤ pos 4) ≡ n
unfolding ◌-ℤ◌
rounds_spent budget n e = ground arith

spent_more : (a b c : ℤ) (n : ℕ) → b ≡ a -ℤ pos 4 → c ≡ b -ℤ pos (4 * n) → c ≡ a -ℤ pos (4 * suc n)
spent_more a b c n e f = f ∙ rw e (omega int_laws)

-- Where each of the next steps costs four cycles and leads to `next`, as long as `P` allows.
module _ (h : Host) (P : ℕ → M68kCpu → Type 0) (next : M68kCpu → M68kCpu)
    (step : (k : ℕ) (c : M68kCpu) → P (suc k) c → m68k_step h c ≡ (ok tt, next c))
    (keep : (k : ℕ) (c : M68kCpu) → P (suc k) c → P k (next c))
    (cost : (c : M68kCpu)
      → ((next c).cycles_remaining ≡ c.cycles_remaining -ℤ pos 4)
        × ((next c).target_cycles ≡ c.target_cycles)) where
  -- What a number of rounds leaves.
  abbrev Leads : ℕ → ℕ → ℕ → M68kCpu → Type 0
  Leads n fuel k c =
      (c' : M68kCpu) × (execute_loop fuel h c ≡ (ok tt, c'))
      × P k c'
      × (c'.cycles_remaining ≡ c.cycles_remaining -ℤ pos (4 * n))
      × (c'.target_cycles ≡ c.target_cycles)

  execute_loop-end :
      (fuel : ℕ) (c : M68kCpu) → rounds c.cycles_remaining ≡ 0 → execute_loop fuel h c ≡ (ok tt, c)
  unfolding execute_loop
  execute_loop-end zero c e = ground arith
  execute_loop-end (suc fuel) c e =
      let over : ltb_ℤ (pos 0) c.cycles_remaining ≡ false = ground arith in rw over refl

  execute_loop-round :
      (fuel n k : ℕ) (c : M68kCpu)
      → rounds c.cycles_remaining ≡ suc n
      → P (suc k) c
      → execute_loop (suc fuel) h c ≡ execute_loop fuel h (next c)
  unfolding execute_loop
  execute_loop-round fuel n k c e p =
      let more : ltb_ℤ (pos 0) c.cycles_remaining ≡ true = ground arith in
      rw (more, step k c p) refl

  execute_loop-rounds :
      (n fuel k : ℕ) (c : M68kCpu)
      → rounds c.cycles_remaining ≡ n
      → P (n + k) c
      → n ≤ fuel
      → Leads n fuel k c
  execute_loop-rounds zero fuel k c e p le =
      let here : 0 + k ≡ k = omega arith in
      (c, execute_loop-end fuel c e, rw here at p, omega int_laws, refl)
  execute_loop-rounds (suc n) zero k c e p le = absurd (omega arith)
  execute_loop-rounds (suc n) (suc fuel) k c e p le =
      let now : suc n + k ≡ suc (n + k) = omega arith in
      let ready : P (suc (n + k)) c = rw now at p in
      let (spent, same) = cost c in
      let less : rounds (next c).cycles_remaining ≡ n =
        rw spent (rounds_spent c.cycles_remaining n e) in
      let (c', ends, left, total, target) =
        execute_loop-rounds n fuel k (next c) less (keep (n + k) c ready) (omega arith) in
      (
        c',
        rw (execute_loop-round fuel n (n + k) c e ready) ends,
        left,
        spent_more c.cycles_remaining (next c).cycles_remaining c'.cycles_remaining n spent total,
        target ∙ same,
      )

  -- A timeslice returns the whole rounds that its budget needs, from counters that have just run out.
  pub m68k_execute-rounds :
      (fuel k : ℕ) (cycles : ℤ) (c : M68kCpu)
      → P (rounds (c.cycles_remaining +ℤ cycles) + k) (record c {
        cycles_remaining = c.cycles_remaining +ℤ cycles;
        target_cycles = c.target_cycles +ℤ cycles;
      })
      → rounds (c.cycles_remaining +ℤ cycles) ≤ fuel
      → let n = rounds (c.cycles_remaining +ℤ cycles) in
        (c' : M68kCpu) × (m68k_execute fuel cycles h c ≡ (ok (pos (4 * n)), c'))
        × P k c'
        × (c'.cycles_remaining ≡ c.cycles_remaining +ℤ cycles -ℤ pos (4 * n))
  unfolding m68k_execute m68k_cycles_run
  m68k_execute-rounds fuel k cycles c p le =
      let n = rounds (c.cycles_remaining +ℤ cycles) in
      let c1 = record c {
        cycles_remaining = c.cycles_remaining +ℤ cycles;
        target_cycles = c.target_cycles +ℤ cycles;
      } in
      let (c', ends, left, total, target) = execute_loop-rounds n fuel k c1 refl p le in
      let ran : (c'.target_cycles -ℤ c'.cycles_remaining)
            -ℤ (c1.target_cycles -ℤ c1.cycles_remaining)
          ≡ pos (4 * n) =
        rw (total, target) (omega int_laws) in
      (c', rw (ends, ran) refl, left, total)
