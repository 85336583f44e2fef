-- ===== src/MathUtils/Tests.antt =====
-- The functions of `mu` at concrete values, and their theorems there.
use fbutils.Prelude.{
  ℕ, ◌+◌, ◌*◌, ◌^◌, ◌%◌, ◌==◌, ◌≤◌, ◌<◌, ◌≡◌, refl, ◌↔◌, arith, Bool, true, false, if◌then◌else◌,
  if◌then◌else◌, some, List, [], ◌∷◌,
}
use fbutils.Scalar.Instances.{bit_scalar, bit_trig}
use fbutils.MathUtils.{next_power_of_2, fft_order_for, is_power_of_2}
use fbutils.MathUtils.PowersOfTwo.{fft_order_for_lem, is_power_of_2_iff}
use fbutils.MathUtils.Rounding.{fast_round_to_int}
use fbutils.MathUtils.Polynomials.{fast_asin4_3}
use fbutils.MathUtils.Decibels.{
  level_difference, delta0_2, delta0_5, fast_db_sum, fast_db_sum0_2, fast_db_sum0_5,
}

powers : (next_power_of_2 5 ≡ 8) × (fft_order_for 5 ≡ some 3) × (is_power_of_2 6 ≡ false)
unfolding next_power_of_2 fft_order_for is_power_of_2
powers = (refl, refl, refl)

fft_order_for_lem_example :
    (k : ℕ) × (fft_order_for 5 ≡ some k)
    × (next_power_of_2 5 ≡ 2 ^ k)
    × (5 ≤ 2 ^ k)
    × (2 ^ k < 2 * 5)
fft_order_for_lem_example = fft_order_for_lem 5 (omega arith) (omega arith)

is_power_of_2_iff_example : (is_power_of_2 64 ≡ true) ↔ ((k : ℕ) × (k < 32) × (64 ≡ 2 ^ k))
is_power_of_2_iff_example = is_power_of_2_iff 64 (omega arith)

abbrev samples : List Bool
samples = true ∷ false ∷ true ∷ []

one_call : fast_asin4_3 (λ a. a) 1 true ≡ some true
unfolding fast_asin4_3
one_call = refl

-- Levels as whether they are odd, and a correction of 3 for two that are alike
abbrev odd_level : ℕ → Bool
odd_level n = (n % 2) == 1

abbrev three_if_alike : Bool → ℕ
three_if_alike differ = if differ then 0 else 3

-- The sum wraps around.
wrapped :
    (fast_db_sum0_2 odd_level three_if_alike false true true 250 252 ≡ 255)
    × (fast_db_sum0_2 odd_level three_if_alike false true true 255 255 ≡ 2)
    × (fast_db_sum0_5 odd_level three_if_alike false true true true true true 255 255 ≡ 2)
unfolding fast_db_sum0_2 fast_db_sum0_5 fast_db_sum level_difference delta0_2 delta0_5
wrapped = (refl, refl, refl)

-- The bits of 5 more than 1.5 * 2 ^ 52
abbrev five_more : Bool → ℕ
five_more a = 1075 * 2 ^ 52 + (2 ^ 51 + 5)

rounded :
    (fast_round_to_int true five_more true false ≡ 5)
    × (fast_round_to_int false five_more true false ≡ 1127743488)
unfolding fast_round_to_int
rounded = (refl, refl)
