-- ===== src/Exception/Settles.antt =====
-- How exceptions end, with the fuel of three levels (src/m68k/m68k.c: `m68k_exception`).
use rocket.Base.{
  ℕ, zero, suc, ◌*◌, ◌≤◌, ◌<◌, refl, ◌==◌, ◌||◌, u16, inl, inr, Bool, true, false, ⊤, arith,
  Option-cases, if◌then◌else◌, add32,
}
use rocket.Cpu.{M68kCpu, Host, Outcome, ok, longjmp, out_of_fuel, M, is_68010, when}
use rocket.Bus.{read_32}
use rocket.Exception.Process.{
  set_pc, set_sr, push_32, push_16, claimed_by_host, enter_exception, clear_fault_latches,
  push_group0_frame, push_short_frame, take_vector, exception_step, exception_fuel,
}
use rocket.Exception.Access.{m68k_exception}
use rocket.Exception.Guards.{SameGuards, clear_flags, IsPolite, Settles, Settles-bind}
use rocket.Exception.Accesses.{read_32-Settles, write_32-Settles, write_16-Settles}

-- A call that began at `c` returned, with the guards as they were.
abbrev pub Completes : {A : Type 0} → M68kCpu → Outcome A × M68kCpu → Type 0
Completes c (ok a, c') = SameGuards c c'
Completes c (longjmp, c') = ⊥
Completes c (out_of_fuel, c') = ⊥

Completes→Settles :
    {A : Type 0} (c : M68kCpu) (r : Outcome A × M68kCpu) → Completes c r → Settles c r
Completes→Settles c (ok a, c') s = s
Completes→Settles c (longjmp, c') s = absurd s
Completes→Settles c (out_of_fuel, c') s = s

set_sr-SameGuards : (v : ℕ) (c : M68kCpu) → SameGuards c (set_sr v c)
unfolding set_sr
set_sr-SameGuards v c = ground arith

module _ (h : Host) (polite : IsPolite h) where
  set_pc-Settles : (a : ℕ) (c : M68kCpu) → Settles c (set_pc a h c)
  unfolding set_pc
  set_pc-Settles a c = elim (Option-cases h.pc_changed_cb) [
    | inl e ↦ ground arith
    | inr (f, e) ↦ ground (arith, polite.pc_changed_cb f e a (record c { pc = a }))
  ]

  claimed_by_host-Completes : (v : ℕ) (c : M68kCpu) → Completes c (claimed_by_host v h c)
  unfolding claimed_by_host
  claimed_by_host-Completes v c = elim (Option-cases h.illg_cb) [
    | inl e ↦ ground arith
    | inr (f, e) ↦ ground (arith, polite.illg_cb f e c.ir c)
  ]

  module _ (exc : ℕ → M ⊤) (n : ℕ)
      (raises : (v : ℕ) (c : M68kCpu) → clear_flags c < n → Settles c (exc v h c)) where
    push_32-Settles : (v : ℕ) (c : M68kCpu) → clear_flags c ≤ n → Settles c (push_32 exc v h c)
    unfolding push_32
    push_32-Settles v c le = write_32-Settles h polite exc n raises _ v _ le

    push_16-Settles : (v : ℕ) (c : M68kCpu) → clear_flags c ≤ n → Settles c (push_16 exc v h c)
    unfolding push_16
    push_16-Settles v c le = write_16-Settles h polite exc n raises _ v _ le

    clear_flags-le : (c c' : M68kCpu) → SameGuards c c' → clear_flags c ≤ n → clear_flags c' ≤ n
    clear_flags-le c c' s le = rw (s.0, s.1) le

    push_group0_frame-Settles :
        (pc sr : ℕ) (c : M68kCpu) → clear_flags c ≤ n → Settles c (push_group0_frame exc pc sr h c)
    unfolding push_group0_frame
    push_group0_frame-Settles pc sr c le =
        Settles-bind h c (push_32 exc pc) _ (push_32-Settles pc c le) λ _ c1 s1.
          let l1 : clear_flags c1 ≤ n = clear_flags-le c c1 s1 le in
          Settles-bind h c1 (push_16 exc sr) _ (push_16-Settles sr c1 l1) λ _ c2 s2.
            let l2 : clear_flags c2 ≤ n = clear_flags-le c1 c2 s2 l1 in
            Settles-bind h c2 (push_16 exc _) _ (push_16-Settles _ c2 l2) λ _ c3 s3.
              let l3 : clear_flags c3 ≤ n = clear_flags-le c2 c3 s3 l2 in
              Settles-bind h c3 (push_32 exc _) _ (push_32-Settles _ c3 l3)
                λ _ c4 s4. push_16-Settles _ c4 (clear_flags-le c3 c4 s4 l3)

    when-Settles : (b : Bool) (m : M ⊤) (c : M68kCpu) → Settles c (m h c) → Settles c (when b m h c)
    when-Settles true m c s = s
    when-Settles false m c s = (refl, refl, refl)

    push_short_frame-Settles :
        (v pc sr : ℕ) (c : M68kCpu)
        → clear_flags c ≤ n
        → Settles c (push_short_frame exc v pc sr h c)
    unfolding push_short_frame
    push_short_frame-Settles v pc sr c le =
        Settles-bind h c (when (is_68010 c.model) (push_16 exc (u16 (v * 4)))) _
          (when-Settles (is_68010 c.model) (push_16 exc (u16 (v * 4))) c
            (push_16-Settles (u16 (v * 4)) c le))
          λ _ c1 s1.
            let l1 : clear_flags c1 ≤ n = clear_flags-le c c1 s1 le in
            Settles-bind h c1 (push_32 exc pc) _ (push_32-Settles pc c1 l1)
              λ _ c2 s2. push_16-Settles sr c2 (clear_flags-le c1 c2 s2 l1)

    frame-Settles :
        (group0 : Bool) (v pc sr : ℕ) (c : M68kCpu)
        → clear_flags c ≤ n
        → Settles c
            ((if group0 then push_group0_frame exc pc sr else push_short_frame exc v pc sr) h c)
    frame-Settles true v pc sr c le = push_group0_frame-Settles pc sr c le
    frame-Settles false v pc sr c le = push_short_frame-Settles v pc sr c le

    take_vector-Settles :
        (v pc sr : ℕ) (c : M68kCpu) → clear_flags c ≤ n → Settles c (take_vector exc v pc sr h c)
    unfolding take_vector clear_fault_latches
    take_vector-Settles v pc sr c le =
        Settles-bind h c
          (if v == 2 || v == 3 then push_group0_frame exc pc sr else push_short_frame exc v pc sr) _
          (frame-Settles (v == 2 || v == 3) v pc sr c le)
          λ _ c1 s1.
            let l1 : clear_flags c1 ≤ n = clear_flags-le c c1 s1 le in
            Settles-bind h (clear_fault_latches c1) (read_32 exc (add32 c1.vbr (v * 4))) _
              (read_32-Settles h polite exc n raises _ (clear_fault_latches c1) l1)
              λ a c2 s2. set_pc-Settles a c2

    exception_step-Completes :
        (v : ℕ) (c : M68kCpu) → clear_flags c ≤ n → Completes c (exception_step exc v h c)
    unfolding exception_step enter_exception
    exception_step-Completes v c le =
        grind (arith, claimed_by_host-Completes, take_vector-Settles, set_sr-SameGuards)

  exception_fuel-Completes :
      (n v : ℕ) (c : M68kCpu) → clear_flags c < n → Completes c (exception_fuel n v h c)
  unfolding exception_fuel
  exception_fuel-Completes zero v c le = absurd (omega arith)
  exception_fuel-Completes (suc n) v c le =
      exception_step-Completes (exception_fuel n) n
        (λ w c' lt. Completes→Settles c' _ (exception_fuel-Completes n w c' lt)) v c (omega arith)

  -- Under a host whose callbacks leave the guards alone, and from any context, exception
  -- processing returns: it is not unwound by
  -- a fault of its own frame writes, does not exhaust the three levels, and leaves the two
  -- re-entry flags and the nesting depth as it found them.
  pub m68k_exception-Completes : (v : ℕ) (c : M68kCpu) → Completes c (m68k_exception v h c)
  unfolding m68k_exception
  m68k_exception-Completes v c = exception_fuel-Completes 3 v c (ground arith)
