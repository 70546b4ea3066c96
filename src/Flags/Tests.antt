-- ===== src/Flags/Tests.antt =====
-- Concrete operands for the theorems on the condition codes.
use rocket.Base.{ℕ, ◌≡◌, true, false, arith, ◌+ℤ◌, ◌-ℤ◌, test_bit}
use rocket.Cpu.{size_byte, size_word, sr_c, sr_v, sr_z, sr_n, sr_x}
use rocket.Flags.Update.{flags_add, flags_sub, flags_cmp, check_condition}
use rocket.Flags.Carry.{flags_add-means, flags_sub-means}
use rocket.Flags.Compare.{check_condition-flags_cmp}

-- 0x80 + 0x80 in bytes: carry, overflow and zero.
flags_add-means_example :
    let sr = flags_add 0x80 0x80 0x100 size_byte 0 in
    (test_bit sr_c sr ≡ true)
    × (test_bit sr_x sr ≡ true)
    × (test_bit sr_v sr ≡ true)
    × (test_bit sr_z sr ≡ true)
    × (test_bit sr_n sr ≡ false)
unfolding ◌+ℤ◌
flags_add-means_example =
    flags_add-means 0x80 0x80 0 size_byte 0 (omega arith) (omega arith) (omega arith)

-- 0x8000 - 1 in words: overflow only.
flags_sub-means_example :
    let sr = flags_sub 1 0x8000 0x7FFF size_word 0 in
    (test_bit sr_c sr ≡ false)
    × (test_bit sr_x sr ≡ false)
    × (test_bit sr_v sr ≡ true)
    × (test_bit sr_z sr ≡ false)
    × (test_bit sr_n sr ≡ false)
unfolding ◌-ℤ◌
flags_sub-means_example =
    flags_sub-means 1 0x8000 0 size_word 0 (omega arith) (omega arith) (omega arith)

-- 0xFF is above 1 without sign and below it with sign.
check_condition-flags_cmp_example :
    let holds = λ (condition : ℕ). check_condition condition (flags_cmp 1 0xFF 0xFE size_byte 0) in
    (holds 2 ≡ true)
    × (holds 3 ≡ false)
    × (holds 4 ≡ true)
    × (holds 5 ≡ false)
    × (holds 6 ≡ true)
    × (holds 7 ≡ false)
    × (holds 12 ≡ false)
    × (holds 13 ≡ true)
    × (holds 14 ≡ false)
    × (holds 15 ≡ true)
check_condition-flags_cmp_example =
    check_condition-flags_cmp 1 0xFF size_byte 0 (omega arith) (omega arith)
