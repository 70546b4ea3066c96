-- ===== src/Exception/FaultWord.antt =====
-- The status word of a group 0 fault (src/m68k/m68k.c: `capture_access_fault`, `current_fc`).
use rocket.Base.{
  ℕ, ◌+◌, ◌-◌, ◌*◌, ◌/◌, ◌%◌, ◌^◌, ◌<◌, ◌≤◌, ◌≡◌, ◌∙◌, ap, refl, Bool, true, ◌||◌, if◌then◌else◌,
  arith, test_bit, bit_and, bit_or, low_bits, bit_or_fields, bit_and_high, bit_and_mask,
}
use rocket.Cpu.{M68kCpu, Host, ok, sr_s}
use rocket.Bus.{current_fc, capture_access_fault}

-- The function code is below 8: supervisor mode adds 4 to the code of the space.
pub current_fc-spaces :
    (c : M68kCpu) (is_program : Bool)
    → current_fc c is_program
      ≡ (if test_bit sr_s c.sr then 4 else 0)
        + (if is_program || c.operand_program_space then 2 else 1)
unfolding current_fc
current_fc-spaces c is_program = ground arith

join_word :
    (ir read fc : ℕ)
    → ir < 2 ^ 16
    → read ≤ 1
    → fc < 8
    → bit_or (bit_or (bit_and ir 0xFFE0) (read * 2 ^ 4)) fc ≡ ir / 2 ^ 5 * 2 ^ 5 + read * 2 ^ 4 + fc
join_word ir read fc fits hread hfc =
    let q = bit_and (ir / 2 ^ 5) (2 ^ 11 - 1) in
    let top : bit_or (bit_and ir 0xFFE0) (read * 2 ^ 4) ≡ (q * 2 + read) * 2 ^ 4 =
      ap (λ (t : ℕ). bit_or t (read * 2 ^ 4)) (bit_and_high 5 (2 ^ 11 - 1) ir)
      ∙ bit_or_fields 5 q (read * 2 ^ 4) (omega arith)
      ∙ omega arith in
    ap (λ (t : ℕ). bit_or t fc) top
    ∙ bit_or_fields 4 (q * 2 + read) fc (omega arith)
    ∙ omega (arith, bit_and_mask 11 (ir / 2 ^ 5))

-- With an instruction word of 16 bits, a captured fault records the address and, in its status word, the instruction word's upper
-- eleven bits, then 1 for a read or 0 for a write, then a three-bit function code of 4 in
-- supervisor mode plus 2 for program or 1 for data space; the instruction word is the latched bus
-- word where there is one.
pub capture_access_fault-word :
    (address : ℕ) (is_write is_program : Bool) (h : Host) (c : M68kCpu)
    → (if c.fault_bus_word_valid then c.fault_bus_word else c.ir) < 2 ^ 16
    → let (r, c') = capture_access_fault address is_write is_program h c in
      let ir = (if c.fault_bus_word_valid then c.fault_bus_word else c.ir) in
      (r ≡ ok tt)
      × (c'.fault_address ≡ address)
      × (c'.fault_ir ≡ ir)
      × (c'.fault_ssw / 2 ^ 5 ≡ ir / 2 ^ 5)
      × (c'.fault_ssw / 2 ^ 4 % 2 ≡ (if is_write then 0 else 1))
      × (c'.fault_ssw % 2 ^ 4
          ≡ (if test_bit sr_s c.sr then 4 else 0)
            + (if is_program || c.operand_program_space then 2 else 1))
      × (c'.fault_valid ≡ true)
unfolding capture_access_fault
capture_access_fault-word address is_write is_program h c fits =
    let ir = (if c.fault_bus_word_valid then c.fault_bus_word else c.ir) in
    let s = current_fc-spaces c is_program in
    let j =
      join_word ir (if is_write then 0 else 1) (low_bits (current_fc c is_program) 3) fits
        (ground arith) (omega arith) in
    (refl, refl, refl, ground (arith, j, s), ground (arith, j, s), ground (arith, j, s), refl)
