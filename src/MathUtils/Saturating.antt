-- ===== src/MathUtils/Saturating.antt =====
-- `saturating_add`, `saturating_subtract`, `approx_dBSum` and `imax`.
use Prim.Native.Nat.{max, min}
use fbutils.Prelude.{ℕ, ◌+◌, ◌-◌, ◌%◌, ◌^◌, ◌≤◌, ◌<◌, ◌≡◌, arith}
use fbutils.MathUtils.{saturating_add, saturating_subtract, approx_db_sum}

-- On bytes, `saturating_add` is the sum cut off at 255, `saturating_subtract` the difference cut off at
-- 0, and adding and then subtracting gives the first byte back exactly where the sum was not cut off.
saturating_lem :
    (a b : ℕ)
    → a < 256
    → b < 256
    → (saturating_add a b ≡ min 255 (a + b))
      × (saturating_subtract a b ≡ a - b)
      × (a + b ≤ 255 → saturating_subtract (saturating_add a b) b ≡ a)
      × (255 < a + b → saturating_subtract (saturating_add a b) b < a)
unfolding saturating_add saturating_subtract
saturating_lem a b ha hb = ground arith

-- `approx_dBSum` is the maximum, and below a saturating sum.
approx_db_sum_lem :
    (a b : ℕ)
    → a < 256
    → b < 256
    → (approx_db_sum a b ≡ max a b) × (approx_db_sum a b ≤ saturating_add a b)
unfolding approx_db_sum saturating_add
approx_db_sum_lem a b ha hb = ground arith

-- The value of an `int32_t`, raised by 2 ^ 31.
abbrev pub raised : ℕ → ℕ
raised x = (x + 2 ^ 31) % 2 ^ 32
