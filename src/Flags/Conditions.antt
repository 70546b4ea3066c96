-- ===== src/Flags/Conditions.antt =====
-- The conditions, two by two (src/m68k/ops_control.c: `m68k_check_condition`).
use rocket.Base.{ℕ, zero, suc, ◌+◌, ◌*◌, ◌<◌, ◌≡◌, refl, not, arith}
use rocket.Flags.Update.{check_condition}

-- Each odd condition holds exactly when the even one before it does not.
pub check_condition-complement :
    (k sr : ℕ) → k < 8 → check_condition (2 * k + 1) sr ≡ not (check_condition (2 * k) sr)
unfolding check_condition
check_condition-complement zero sr lt = refl
check_condition-complement (suc zero) sr lt = ground arith
check_condition-complement (suc (suc zero)) sr lt = ground arith
check_condition-complement (suc (suc (suc zero))) sr lt = ground arith
check_condition-complement (suc (suc (suc (suc zero)))) sr lt = ground arith
check_condition-complement (suc (suc (suc (suc (suc zero))))) sr lt = ground arith
check_condition-complement (suc (suc (suc (suc (suc (suc zero)))))) sr lt = ground arith
check_condition-complement (suc (suc (suc (suc (suc (suc (suc zero))))))) sr lt = ground arith
check_condition-complement (suc (suc (suc (suc (suc (suc (suc (suc k)))))))) sr lt =
    absurd (omega arith)
